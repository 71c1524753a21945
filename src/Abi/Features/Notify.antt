-- ===== src/Abi/Features/Notify.antt =====
-- fuse-abi/src/lib.rs: the codes of notifications, which only builds with `abi-7-11` have.
use fuse_rs.Base.{
  ℕ, ◌≡◌, sym, ap, ◌∙◌, ◌↔◌, Bool, true, ◌&&◌, Option, none, some, arith, ◌==◌, if◌then◌else◌,
}
use fuse_rs.Abi.Features.{Build, feature}

pub data FuseNotifyCode : Type 0 where
  fuse_poll fuse_notify_inval_inode fuse_notify_inval_entry fuse_notify_store fuse_notify_retrieve
        fuse_notify_delete :
      FuseNotifyCode

-- The `cfg` of a variant.
unfoldable pub is_in : Build → FuseNotifyCode → Bool
is_in b fuse_poll = feature b 11
is_in b fuse_notify_inval_inode = feature b 12
is_in b fuse_notify_inval_entry = feature b 12
is_in b fuse_notify_store = feature b 15
is_in b fuse_notify_retrieve = feature b 15
is_in b fuse_notify_delete = feature b 18

unfoldable pub notify_code : FuseNotifyCode → ℕ
notify_code fuse_poll = 1
notify_code fuse_notify_inval_inode = 2
notify_code fuse_notify_inval_entry = 3
notify_code fuse_notify_store = 4
notify_code fuse_notify_retrieve = 5
notify_code fuse_notify_delete = 6

-- `TryFrom<u32>`; `none` is `InvalidNotifyCodeError`.
unfoldable pub notify_try_from : Build → ℕ → Option FuseNotifyCode
notify_try_from b n =
    if n == 1 && feature b 11
    then some fuse_poll
    else if n == 2 && feature b 12
    then some fuse_notify_inval_inode
    else if n == 3 && feature b 12
    then some fuse_notify_inval_entry
    else if n == 4 && feature b 15
    then some fuse_notify_store
    else if n == 5 && feature b 15
    then some fuse_notify_retrieve
    else if n == 6 && feature b 18
    then some fuse_notify_delete
    else none

module _ (b : Build) where
  found :
      (code : FuseNotifyCode)
      → is_in b code ≡ true
      → notify_try_from b (notify_code code) ≡ some code
  unfolding notify_try_from notify_code is_in
  found fuse_poll h = rw h
  found fuse_notify_inval_inode h = rw h
  found fuse_notify_inval_entry h = rw h
  found fuse_notify_store h = rw h
  found fuse_notify_retrieve h = rw h
  found fuse_notify_delete h = rw h

  -- In every build, `try_from` finds a notify code for a number exactly when the number is its
  -- discriminant and the build has it.
  pub notify_try_from_iff :
      (n : ℕ) (code : FuseNotifyCode)
      → (notify_try_from b n ≡ some code) ↔ ((notify_code code ≡ n) × (is_in b code ≡ true))
  unfolding notify_try_from notify_code is_in
  notify_try_from_iff n code =
      (λ h. ground arith, λ h. ap (notify_try_from b) (sym h.0) ∙ found code h.1)
