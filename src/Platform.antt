-- ===== src/Platform.antt =====
-- What the code takes from elsewhere: the constants of libc (a parameter: their numbers belong to the
-- target), and the times of the standard library.
use fuse_rs.Base.{ℕ, ◌+◌, ◌/◌, ◌%◌, ◌^◌, ℤ, pos, negsuc, Option, none, some, ltb, if◌then◌else◌}

pub record Libc : Type 0 where
  pub eio : ℤ
  pub enosys : ℤ
  pub eproto : ℤ
  pub enoent : ℤ
  pub eintr : ℤ
  pub eagain : ℤ
  pub enodev : ℤ
  pub s_ififo : ℕ
  pub s_ifchr : ℕ
  pub s_ifblk : ℕ
  pub s_ifdir : ℕ
  pub s_ifreg : ℕ
  pub s_iflnk : ℕ
  pub s_ifsock : ℕ
  -- The capacity that `Vec::with_capacity(n)` allocates; it is documented to be at least `n`.
  pub with_capacity : ℕ → ℕ

-- `std::time::Duration`; the nanoseconds stay below one second.
pub record Duration : Type 0 where
  pub secs : ℕ
  pub nanos : ℕ

abbrev pub nanos_per_sec : ℕ
nanos_per_sec = 1000000000

-- `Duration::new` carries whole seconds over, and panics (`none`) when the seconds overflow.
unfoldable pub duration_new : ℕ → ℕ → Option Duration
duration_new secs nanos =
    let total = secs + nanos / nanos_per_sec in
    if ltb total (2 ^ 64)
    then some (record { secs = total; nanos = nanos % nanos_per_sec })
    else none

-- `std::time::SystemTime`: seconds since the epoch, which may be negative, and nanoseconds after that.
pub record SystemTime : Type 0 where
  pub secs : ℤ
  pub nanos : ℕ

-- `UNIX_EPOCH + duration` panics when the seconds do not fit an `i64`.
unfoldable pub epoch_add : Duration → Option SystemTime
epoch_add d =
    if ltb d.secs (2 ^ 63) then some (record { secs = pos d.secs; nanos = d.nanos }) else none

since_epoch : ℤ → ℕ → Option Duration
since_epoch (pos s) nanos = some (record { secs = s; nanos = nanos })
since_epoch (negsuc s) nanos = none

-- `time.duration_since(UNIX_EPOCH)` fails for a time before the epoch.
unfoldable pub duration_since_epoch : SystemTime → Option Duration
unfolding since_epoch
duration_since_epoch t = since_epoch t.secs t.nanos
