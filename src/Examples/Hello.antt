-- ===== src/Examples/Hello.antt =====
-- examples/hello.rs: a read-only directory with one file. `HelloFS` has no state.
pub mod Listing
pub mod Reading
use fuse_rs.Base.{
  ℕ, ◌+◌, ℤ, pos, Bool, true, false, ◌&&◌, List, [], ◌∷◌, ltb, ◌==◌, if◌then◌else◌, length, drop,
  as_u64,
}
use fuse_rs.Platform.{Libc, Duration, SystemTime}
use fuse_rs.Reply.Attr.{FileType, FileAttr, directory, regular_file}
use fuse_rs.Reply.Directory.{DirEntry}
use fuse_rs.Filesystem.{add_each, Filesystem, Answer, DirAnswer, EntryAnswer, AttrAnswer, answer}
use fuse_rs.Filesystem.Default.{default_filesystem}

abbrev pub ttl : Duration
ttl = record { secs = 1; nanos = 0 }

abbrev pub unix_epoch : SystemTime
unix_epoch = record { secs = pos 0; nanos = 0 }

abbrev pub hello_dir_attr : FileAttr
hello_dir_attr = record {
  ino = 1;
  size = 0;
  blocks = 0;
  atime = unix_epoch;
  mtime = unix_epoch;
  ctime = unix_epoch;
  crtime = unix_epoch;
  kind = directory;
  perm = 0o755;
  nlink = 2;
  uid = 501;
  gid = 20;
  rdev = 0;
  flags = 0;
}

-- "Hello World!\n"
abbrev pub hello_txt_content : List ℕ
hello_txt_content =
    b'H' ∷ b'e' ∷ b'l' ∷ b'l' ∷ b'o' ∷ b' ' ∷ b'W' ∷ b'o' ∷ b'r' ∷ b'l' ∷ b'd' ∷ b'!' ∷ 10 ∷ []

abbrev pub hello_txt_attr : FileAttr
hello_txt_attr = record {
  ino = 2;
  size = 13;
  blocks = 1;
  atime = unix_epoch;
  mtime = unix_epoch;
  ctime = unix_epoch;
  crtime = unix_epoch;
  kind = regular_file;
  perm = 0o644;
  nlink = 1;
  uid = 501;
  gid = 20;
  rdev = 0;
  flags = 0;
}

-- "hello.txt"
abbrev pub hello_txt : List ℕ
hello_txt = b'h' ∷ b'e' ∷ b'l' ∷ b'l' ∷ b'o' ∷ b'.' ∷ b't' ∷ b'x' ∷ b't' ∷ []

-- Names are compared as bytes.
unfoldable pub same_name : List ℕ → List ℕ → Bool
same_name [] [] = true
same_name [] (b ∷ bs) = false
same_name (a ∷ rest) [] = false
same_name (a ∷ xs) (b ∷ bs) = let rest = same_name xs bs in if a == b then rest else false

-- An entry with its index, which is one more in the offset: that of the next entry.
abbrev pub entry : ℕ → ℕ → FileType → List ℕ → DirEntry
entry i ino kind name = record { ino = ino; offset = pos (i + 1); kind = kind; name = name }

abbrev pub entries : List DirEntry
entries =
    entry 0 1 directory (b'.' ∷ [])
    ∷ entry 1 1 directory (b'.' ∷ b'.' ∷ [])
    ∷ entry 2 2 regular_file hello_txt
    ∷ []

module _ (c : Libc) where
  unfoldable pub hello_lookup : ℕ → List ℕ → Answer EntryAnswer
  hello_lookup parent name =
      if parent == 1 && same_name name hello_txt
      then answer (record { ttl = ttl; attr = hello_txt_attr; generation = 0 })
      else Answer.error c.enoent

  unfoldable pub hello_getattr : ℕ → Answer AttrAnswer
  hello_getattr ino =
      if ino == 1
      then answer (record { ttl = ttl; attr = hello_dir_attr })
      else if ino == 2
      then answer (record { ttl = ttl; attr = hello_txt_attr })
      else Answer.error c.enoent

  -- A slice from an offset behind the end panics. The size is not looked at.
  unfoldable pub hello_read : ℕ → ℤ → Answer (List ℕ)
  hello_read ino offset =
      if ino == 2
      then if ltb (length hello_txt_content) (as_u64 offset)
        then Answer.panics
        else answer (drop (as_u64 offset) hello_txt_content)
      else Answer.error c.enoent

  unfoldable pub hello_readdir : ℕ → ℤ → DirAnswer
  hello_readdir ino offset =
      if ino == 1 then add_each (drop (as_u64 offset) entries) else DirAnswer.error c.enoent

  unfoldable pub hello_fs : Filesystem (Unit {0})
  unfolding default_filesystem
  hello_fs = record (default_filesystem c) {
    lookup = λ _ parent name s. (s, hello_lookup parent name);
    getattr = λ _ ino s. (s, hello_getattr ino);
    read = λ _ ino _ offset _ s. (s, hello_read ino offset);
    readdir = λ _ ino _ offset s. (s, hello_readdir ino offset);
  }
