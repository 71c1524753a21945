-- ===== src/Channel/Mount.antt =====
-- src/channel.rs: mounting, unmounting, sending and dropping a channel.
pub mod Args
pub mod Laws
use fuse_rs.Base.{
  ℕ, ℤ, pos, Bool, true, false, ◌&&◌, ◌%◌, ◌^◌, List, [], ◌∷◌, ◌++◌, Option, none, some,
  if◌then◌else◌, length, as_i32,
}
use fuse_rs.Base.Result.{Result, ok, err}
use fuse_rs.Os.{
  Os, FuseArgs, IoError, os_error, nul_error, Sys, ◌>>=◌, ◌>>◌, pure, is_negative, sys_canonicalize,
  sys_fuse_mount, sys_writev, sys_umount, sys_fuse_unmount, sys_close, last_error,
}
use fuse_rs.Effect.{ChannelSender}
use fuse_rs.Channel.{Channel}
use fuse_rs.Ll.Argument.{position}

-- `CString::new`: the string must not have a zero byte in it.
unfoldable pub c_string : List ℕ → Option (List ℕ)
c_string bytes = elim (position bytes) [ none ↦ some (bytes ++ 0 ∷ []) | some _ ↦ none ]

-- "fuse-rs"
abbrev pub fuse_rs_name : List ℕ
fuse_rs_name = b'f' ∷ b'u' ∷ b's' ∷ b'e' ∷ b'-' ∷ b'r' ∷ b's' ∷ []

abbrev pub both : {A : Type 0} → Option A → Option (List A) → Option (List A)
both none rest = none
both (some a) none = none
both (some a) (some rest) = some (a ∷ rest)

-- `CString::new(s).unwrap()` of each; `none` is a panic.
unfoldable pub c_strings : List (List ℕ) → Option (List (List ℕ))
c_strings [] = some []
c_strings (s ∷ ss) = both (c_string s) (c_strings ss)

abbrev pub fuse_args : List (List ℕ) → FuseArgs
fuse_args args = record { argc = as_i32 (length args % 2 ^ 32); argv = args; allocated = pos 0 }

-- `none` is a panic.
unfoldable pub with_fuse_args : {T : Type 0} → List (List ℕ) → (FuseArgs → T) → Option T
with_fuse_args options f = elim (c_strings (fuse_rs_name ∷ options)) [
  | none ↦ none
  | some args ↦ some (f (fuse_args args))
]

module _ (os : Os) where
  -- `Err(io::Error::last_os_error())`.
  abbrev pub last_os_err : {A : Type 0} → Sys (Result IoError A)
  last_os_err = do e ← last_error os; pure (err (os_error e))

  -- `Channel::new` on the real path; this is what runs with the arguments.
  unfoldable pub open_at : List ℕ → FuseArgs → Sys (Result IoError Channel)
  open_at mountpoint args = elim (c_string mountpoint) [
    | none ↦ pure (err nul_error)
    | some mnt ↦ do
      fd ← sys_fuse_mount os mnt args
      if is_negative fd
          then last_os_err
          else pure (ok (record { mountpoint = mountpoint; fd = fd }))
  ]

  -- `none` is a panic.
  abbrev pub open_with :
      List (List ℕ) → Result IoError (List ℕ) → Sys (Option (Result IoError Channel))
  open_with options (err e) = pure (some (err e))
  open_with options (ok mountpoint) = elim (with_fuse_args options (open_at mountpoint)) [
    | none ↦ pure none
    | some opening ↦ (do r ← opening; pure (some r))
  ]

  unfoldable pub new : List ℕ → List (List ℕ) → Sys (Option (Result IoError Channel))
  new mountpoint options = do real ← sys_canonicalize os mountpoint; open_with options real

  unfoldable pub send : ChannelSender → List (List ℕ) → Sys (Result IoError (Unit {0}))
  send s buffer = do
    rc ← sys_writev os s.fd buffer
    if is_negative rc then last_os_err else pure (ok tt)

  -- `ReplySender::send`, which only logs an error.
  unfoldable pub send_reply : ChannelSender → List (List ℕ) → Sys (Unit {0})
  send_reply s slices = do _r ← send s slices; pure tt

  -- Outside macOS and the BSDs.
  unfoldable pub libc_umount : List ℕ → Sys ℤ
  libc_umount mnt = do
    rc ← sys_umount os mnt
    e ← last_error os
    if is_negative rc && os.is_permission_denied e
        then (do sys_fuse_unmount mnt; pure (pos 0))
        else pure rc

  unfoldable pub unmount : List ℕ → Sys (Result IoError (Unit {0}))
  unmount mountpoint = elim (c_string mountpoint) [
    | none ↦ pure (err nul_error)
    | some mnt ↦ do rc ← libc_umount mnt; if is_negative rc then last_os_err else pure (ok tt)
  ]

  unfoldable pub drop : Channel → Sys (Unit {0})
  drop ch = do sys_close ch.fd; _r ← unmount ch.mountpoint; pure tt
