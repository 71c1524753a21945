-- ===== src/Os.antt =====
-- What the code asks of the operating system and of libfuse (a parameter: each answer may depend on all
-- the calls so far), and the calls that it makes, the
-- latest first. Reading from a descriptor is not among them:
-- what the reads return is given as a list.
use fuse_rs.Base.{ℕ, ℤ, pos, negsuc, Bool, true, false, List, ◌∷◌}
use fuse_rs.Base.Result.{Result}

-- `fuse_args` of fuse-sys/src/lib.rs; `argv` has the strings that its pointers point to.
pub record FuseArgs : Type 0 where
  pub argc : ℤ
  pub argv : List (List ℕ)
  pub allocated : ℤ

-- `io::Error`: of the operating system, or the `NulError` of a string with a zero byte in it.
pub data IoError : Type 0 where
  os_error : ℤ → IoError
  nul_error : IoError

-- Paths are bytes; the strings that are passed on end in a zero byte.
pub data Call : Type 0 where
  canonicalize : List ℕ → Call
  fuse_mount : List ℕ → FuseArgs → Call
  writev : ℤ → List (List ℕ) → Call
  close : ℤ → Call
  umount : List ℕ → Call
  fuse_unmount : List ℕ → Call

abbrev pub History : Type 0
History = List Call

pub record Os : Type 0 where
  pub canonicalized : History → List ℕ → Result IoError (List ℕ)
  pub mounted : History → List ℕ → FuseArgs → ℤ
  pub written : History → ℤ → List (List ℕ) → ℤ
  pub unmounted : History → List ℕ → ℤ
  pub last_os_error : History → ℤ
  -- `io::Error::kind() == PermissionDenied`.
  pub is_permission_denied : ℤ → Bool

-- Code that makes calls.
abbrev pub Sys : Type 0 → Type 0
Sys A = History → A × History

infixl 5 ◌>>=◌ ◌>>◌
abbrev pub ◌>>=◌ : {A B : Type 0} → Sys A → (A → Sys B) → Sys B
◌>>=◌ m f h = f (m h).0 (m h).1

abbrev pub ◌>>◌ : {A B : Type 0} → Sys A → Sys B → Sys B
m >> k = m >>= λ _. k

abbrev pub pure : {A : Type 0} → A → Sys A
pure a h = (a, h)

abbrev pub is_negative : ℤ → Bool
is_negative (pos n) = false
is_negative (negsuc n) = true

module _ (os : Os) where
  abbrev pub sys_canonicalize : List ℕ → Sys (Result IoError (List ℕ))
  sys_canonicalize path h = (os.canonicalized h path, canonicalize path ∷ h)

  abbrev pub sys_fuse_mount : List ℕ → FuseArgs → Sys ℤ
  sys_fuse_mount mnt args h = (os.mounted h mnt args, fuse_mount mnt args ∷ h)

  abbrev pub sys_writev : ℤ → List (List ℕ) → Sys ℤ
  sys_writev fd slices h = (os.written h fd slices, writev fd slices ∷ h)

  abbrev pub sys_umount : List ℕ → Sys ℤ
  sys_umount mnt h = (os.unmounted h mnt, umount mnt ∷ h)

  abbrev pub last_error : Sys ℤ
  last_error h = (os.last_os_error h, h)

abbrev pub sys_close : ℤ → Sys (Unit {0})
sys_close fd h = (tt, close fd ∷ h)

abbrev pub sys_fuse_unmount : List ℕ → Sys (Unit {0})
sys_fuse_unmount mnt h = (tt, fuse_unmount mnt ∷ h)
