-- ===== src/Channel/Mount/Laws.antt =====
-- src/channel.rs: opening, unmounting and dropping a channel.
use fuse_rs.Base.{
  ℕ, ◌≡◌, ◌⊎◌, inl, inr, refl, true, false, List, ◌∷◌, Option, none, some, arith, All, Bool-cases,
}
use fuse_rs.Base.Result.{Result, ok, err}
use mathlib.Core.Path.{subst}
use fuse_rs.Os.{
  Os, History, canonicalize, fuse_mount, close, umount, fuse_unmount, IoError, os_error, nul_error,
  is_negative,
}
use fuse_rs.Ll.Argument.Laws.{NonZero}
use fuse_rs.Channel.{Channel}
use fuse_rs.Channel.Mount.{open_at, new, libc_umount, unmount, drop, open_with}
use fuse_rs.Channel.Mount.Args.{terminated, c_string_cases, with_fuse_args_cases, mount_args}

module _ (os : Os) where
  -- What unmounting a path comes to, with the calls that it makes.
  pub data Unmounts (path : List ℕ) (h : History)
      : Result IoError (Unit {0}) × History → Type 0 where
    bad_path : ¬ All NonZero path → Unmounts path h (err nul_error, h)
    unmounted :
        All NonZero path
        → is_negative (os.unmounted h (terminated path)) ≡ false
        → Unmounts path h (ok tt, umount (terminated path) ∷ h)
    by_library :
        All NonZero path
        → is_negative (os.unmounted h (terminated path)) ≡ true
        → os.is_permission_denied (os.last_os_error (umount (terminated path) ∷ h)) ≡ true
        → Unmounts path h (ok tt, fuse_unmount (terminated path) ∷ umount (terminated path) ∷ h)
    refused :
        All NonZero path
        → is_negative (os.unmounted h (terminated path)) ≡ true
        → os.is_permission_denied (os.last_os_error (umount (terminated path) ∷ h)) ≡ false
        → Unmounts path h (
          err (os_error (os.last_os_error (umount (terminated path) ∷ h))),
          umount (terminated path) ∷ h,
        )

  -- `unmount` comes to one of four ends, each with the calls that it makes: the path has a zero
  -- byte, which is an error; the system unmounts it; the system denies permission, and libfuse is
  -- asked instead, which counts as done; or it refuses for another reason, which is the error.
  pub unmount-Unmounts : (path : List ℕ) (h : History) → Unmounts path h (unmount os path h)
  unfolding unmount libc_umount
  unmount-Unmounts path h = elim (c_string_cases path) [
    | inr (bad, e) ↦ rw (unmount, e) (bad_path bad)
    | inl (good, e) ↦ elim (Bool-cases (is_negative (os.unmounted h (terminated path)))) [
      | inr fine ↦ rw (unmount, e, libc_umount, fine, fine) (unmounted good fine)
      | inl failed ↦
          elim (Bool-cases
            (os.is_permission_denied (os.last_os_error (umount (terminated path) ∷ h)))) [
              | inl denied ↦
                  rw (unmount, e, libc_umount, failed, denied) (by_library good failed denied)
              | inr other ↦
                  rw (unmount, e, libc_umount, failed, other, failed) (refused good failed other)
            ]
    ]
  ]

  -- What opening a channel comes to, with the calls that it makes.
  pub data Opens (path : List ℕ) (options : List (List ℕ)) (h : History)
      : Option (Result IoError Channel) × History → Type 0 where
    no_path :
        (e : IoError)
        → os.canonicalized h path ≡ err e
        → Opens path options h (some (err e), canonicalize path ∷ h)
    bad_option :
        (real : List ℕ)
        → os.canonicalized h path ≡ ok real
        → ¬ All (All NonZero) options
        → Opens path options h (none, canonicalize path ∷ h)
    bad_real :
        (real : List ℕ)
        → os.canonicalized h path ≡ ok real
        → All (All NonZero) options
        → ¬ All NonZero real
        → Opens path options h (some (err nul_error), canonicalize path ∷ h)
    not_mounted :
        (real : List ℕ)
        → os.canonicalized h path ≡ ok real
        → All NonZero real
        → is_negative (os.mounted (canonicalize path ∷ h) (terminated real) (mount_args options))
          ≡ true
        → Opens path options h (
          some (
              err (
                os_error (
                  os.last_os_error
                    (fuse_mount (terminated real) (mount_args options) ∷ canonicalize path ∷ h)))),
          fuse_mount (terminated real) (mount_args options) ∷ canonicalize path ∷ h,
        )
    opened :
        (ch : Channel)
        → os.canonicalized h path ≡ ok ch.mountpoint
        → All NonZero ch.mountpoint
        → os.mounted (canonicalize path ∷ h) (terminated ch.mountpoint) (mount_args options) ≡ ch.fd
        → is_negative ch.fd ≡ false
        → Opens path options h (
          some (ok ch),
          fuse_mount (terminated ch.mountpoint) (mount_args options) ∷ canonicalize path ∷ h,
        )

  open_at-Opens :
      (path : List ℕ) (options : List (List ℕ)) (h : History) (real : List ℕ)
      → os.canonicalized h path ≡ ok real
      → All (All NonZero) options
      → Opens path options h (
        some (open_at os real (mount_args options) (canonicalize path ∷ h)).0,
        (open_at os real (mount_args options) (canonicalize path ∷ h)).1,
      )
  unfolding open_at
  open_at-Opens path options h real found good = elim (c_string_cases real) [
    | inr (bad, e) ↦ rw (open_at, e) (bad_real real found good bad)
    | inl (fine, e) ↦
        elim (Bool-cases (
          is_negative
            (os.mounted (canonicalize path ∷ h) (terminated real) (mount_args options)))) [
              | inl failed ↦ rw (open_at, e, failed) (not_mounted real found fine failed)
              | inr done ↦
                  rw (open_at, e, done)
                    (opened
                      (record {
                        mountpoint = real;
                        fd =
                            os.mounted (canonicalize path ∷ h) (terminated real)
                              (mount_args options);
                      })
                      found fine refl done)
            ]
  ]

  open_with-Opens :
      (path : List ℕ) (options : List (List ℕ)) (h : History) (r : Result IoError (List ℕ))
      → os.canonicalized h path ≡ r
      → Opens path options h (open_with os options r (canonicalize path ∷ h))
  open_with-Opens path options h (err e) found = no_path e found
  open_with-Opens path options h (ok real) found =
      elim (with_fuse_args_cases options (open_at os real)) [
        | inr (bad, e) ↦ rw (open_with, e) (bad_option real found bad)
        | inl (good, e) ↦ rw (open_with, e) (open_at-Opens path options h real found good)
      ]

  -- `Channel::new` comes to one of five ends, each with the calls that it makes: the path has no
  -- real path, which is the error; an option has a zero byte, which is a panic; the real path has
  -- one, which is an error; libfuse does not mount, which is the error of the system; or it mounts
  -- the real path with the given options and the channel has what it returned.
  pub new-Opens :
      (path : List ℕ) (options : List (List ℕ)) (h : History)
      → Opens path options h (new os path options h)
  unfolding new
  new-Opens path options h = open_with-Opens path options h (os.canonicalized h path) refl

  -- Of what unmounting comes to: the calls, for a path without a zero byte.
  abbrev pub IsUnmounting : List ℕ → History → History → Type 0
  IsUnmounting mnt h h' = (h' ≡ umount mnt ∷ h) ⊎ (h' ≡ fuse_unmount mnt ∷ umount mnt ∷ h)

  pub Unmounts-IsUnmounting :
      (path : List ℕ) (h : History) (x : Result IoError (Unit {0}) × History)
      → All NonZero path
      → Unmounts path h x
      → IsUnmounting (terminated path) h x.1
  Unmounts-IsUnmounting path h _ good (bad_path bad) = absurd (bad good)
  Unmounts-IsUnmounting path h _ good (unmounted _ _) = inl refl
  Unmounts-IsUnmounting path h _ good (by_library _ _ _) = inr refl
  Unmounts-IsUnmounting path h _ good (refused _ _ _) = inl refl

  Opens-ok :
      (path : List ℕ) (options : List (List ℕ)) (h : History) (ch : Channel)
      (x : Option (Result IoError Channel) × History)
      → Opens path options h x
      → x.0 ≡ some (ok ch)
      → All NonZero ch.mountpoint
        × (x.1 ≡ fuse_mount (terminated ch.mountpoint) (mount_args options) ∷ canonicalize path ∷ h)
  Opens-ok path options h ch _ (no_path e _) r = absurd (ground arith)
  Opens-ok path options h ch _ (bad_option real _ _) r = absurd (ground arith)
  Opens-ok path options h ch _ (bad_real real _ _ _) r = absurd (ground arith)
  Opens-ok path options h ch _ (not_mounted real _ _ _) r = absurd (ground arith)
  Opens-ok path options h ch _ (opened ch' _ good _ _) r =
      let same : ch' ≡ ch = ground arith in
      subst
        (λ (ch : Channel).
          All NonZero ch.mountpoint
          × (fuse_mount (terminated ch'.mountpoint) (mount_args options) ∷ canonicalize path ∷ h
              ≡ fuse_mount (terminated ch.mountpoint) (mount_args options) ∷ canonicalize path ∷ h))
        same (good, refl)

  -- Dropping a channel that `Channel::new` returned closes its descriptor first and then asks to
  -- unmount exactly the string that was mounted, by the system and, if need be, by libfuse.
  pub new-drop :
      (path : List ℕ) (options : List (List ℕ)) (h h' : History) (ch : Channel)
      → (new os path options h).0 ≡ some (ok ch)
      → (mnt : List ℕ) × ((new os path options h).1
          ≡ fuse_mount mnt (mount_args options) ∷ canonicalize path ∷ h)
        × IsUnmounting mnt (close ch.fd ∷ h') (drop os ch h').1
  unfolding drop
  new-drop path options h h' ch is_open =
      let (good, calls) = Opens-ok path options h ch _ (new-Opens path options h) is_open in
      (
        terminated ch.mountpoint,
        calls,
        Unmounts-IsUnmounting ch.mountpoint (close ch.fd ∷ h') _ good
            (unmount-Unmounts ch.mountpoint (close ch.fd ∷ h')),
      )
