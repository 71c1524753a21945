-- ===== src/Abi/Features/Structs/Poll.antt =====
-- fuse-abi/src/lib.rs, of builds with features or on macOS: the structs of IOCTL and POLL.
use fuse_rs.Base.{ℕ, ℤ, refl, [], ◌∷◌}
use fuse_rs.Abi.Layout.{i32, u32, u64, Fields, Struct}

pub record FuseIoctlIn : Type 0 where
  pub fh : ℕ
  pub flags : ℕ
  pub cmd : ℕ
  pub arg : ℕ
  pub in_size : ℕ
  pub out_size : ℕ

abbrev fuse_ioctl_in_to_fields : FuseIoctlIn → Fields (u64 ∷ u32 ∷ u32 ∷ u64 ∷ u32 ∷ u32 ∷ [])
fuse_ioctl_in_to_fields t = (t.fh, (t.flags, (t.cmd, (t.arg, (t.in_size, (t.out_size, tt))))))

abbrev fuse_ioctl_in_of_fields : Fields (u64 ∷ u32 ∷ u32 ∷ u64 ∷ u32 ∷ u32 ∷ []) → FuseIoctlIn
fuse_ioctl_in_of_fields (fh, (flags, (cmd, (arg, (in_size, (out_size, _)))))) = record {
  fh = fh;
  flags = flags;
  cmd = cmd;
  arg = arg;
  in_size = in_size;
  out_size = out_size;
}

instance abbrev pub fuse_ioctl_in_struct : Struct FuseIoctlIn
fuse_ioctl_in_struct = record {
  layout = u64 ∷ u32 ∷ u32 ∷ u64 ∷ u32 ∷ u32 ∷ [];
  to_fields = fuse_ioctl_in_to_fields;
  of_fields = fuse_ioctl_in_of_fields;
  of_fields-to_fields = λ t. refl;
  to_fields-of_fields = λ f. refl;
}

pub record FuseIoctlIovec : Type 0 where
  pub base : ℕ
  pub len : ℕ

abbrev fuse_ioctl_iovec_to_fields : FuseIoctlIovec → Fields (u64 ∷ u64 ∷ [])
fuse_ioctl_iovec_to_fields t = (t.base, (t.len, tt))

abbrev fuse_ioctl_iovec_of_fields : Fields (u64 ∷ u64 ∷ []) → FuseIoctlIovec
fuse_ioctl_iovec_of_fields (base, (len, _)) = record { base = base; len = len }

instance abbrev pub fuse_ioctl_iovec_struct : Struct FuseIoctlIovec
fuse_ioctl_iovec_struct = record {
  layout = u64 ∷ u64 ∷ [];
  to_fields = fuse_ioctl_iovec_to_fields;
  of_fields = fuse_ioctl_iovec_of_fields;
  of_fields-to_fields = λ t. refl;
  to_fields-of_fields = λ f. refl;
}

pub record FuseIoctlOut : Type 0 where
  pub result : ℤ
  pub flags : ℕ
  pub in_iovs : ℕ
  pub out_iovs : ℕ

abbrev fuse_ioctl_out_to_fields : FuseIoctlOut → Fields (i32 ∷ u32 ∷ u32 ∷ u32 ∷ [])
fuse_ioctl_out_to_fields t = (t.result, (t.flags, (t.in_iovs, (t.out_iovs, tt))))

abbrev fuse_ioctl_out_of_fields : Fields (i32 ∷ u32 ∷ u32 ∷ u32 ∷ []) → FuseIoctlOut
fuse_ioctl_out_of_fields (result, (flags, (in_iovs, (out_iovs, _)))) = record {
  result = result;
  flags = flags;
  in_iovs = in_iovs;
  out_iovs = out_iovs;
}

instance abbrev pub fuse_ioctl_out_struct : Struct FuseIoctlOut
fuse_ioctl_out_struct = record {
  layout = i32 ∷ u32 ∷ u32 ∷ u32 ∷ [];
  to_fields = fuse_ioctl_out_to_fields;
  of_fields = fuse_ioctl_out_of_fields;
  of_fields-to_fields = λ t. refl;
  to_fields-of_fields = λ f. refl;
}

pub record FusePollIn : Type 0 where
  pub fh : ℕ
  pub kh : ℕ
  pub flags : ℕ
  pub padding : ℕ

abbrev fuse_poll_in_to_fields : FusePollIn → Fields (u64 ∷ u64 ∷ u32 ∷ u32 ∷ [])
fuse_poll_in_to_fields t = (t.fh, (t.kh, (t.flags, (t.padding, tt))))

abbrev fuse_poll_in_of_fields : Fields (u64 ∷ u64 ∷ u32 ∷ u32 ∷ []) → FusePollIn
fuse_poll_in_of_fields (fh, (kh, (flags, (padding, _)))) = record {
  fh = fh;
  kh = kh;
  flags = flags;
  padding = padding;
}

instance abbrev pub fuse_poll_in_struct : Struct FusePollIn
fuse_poll_in_struct = record {
  layout = u64 ∷ u64 ∷ u32 ∷ u32 ∷ [];
  to_fields = fuse_poll_in_to_fields;
  of_fields = fuse_poll_in_of_fields;
  of_fields-to_fields = λ t. refl;
  to_fields-of_fields = λ f. refl;
}

pub record FusePollOut : Type 0 where
  pub revents : ℕ
  pub padding : ℕ

abbrev fuse_poll_out_to_fields : FusePollOut → Fields (u32 ∷ u32 ∷ [])
fuse_poll_out_to_fields t = (t.revents, (t.padding, tt))

abbrev fuse_poll_out_of_fields : Fields (u32 ∷ u32 ∷ []) → FusePollOut
fuse_poll_out_of_fields (revents, (padding, _)) = record { revents = revents; padding = padding }

instance abbrev pub fuse_poll_out_struct : Struct FusePollOut
fuse_poll_out_struct = record {
  layout = u32 ∷ u32 ∷ [];
  to_fields = fuse_poll_out_to_fields;
  of_fields = fuse_poll_out_of_fields;
  of_fields-to_fields = λ t. refl;
  to_fields-of_fields = λ f. refl;
}

pub record FuseNotifyPollWakeupOut : Type 0 where
  pub kh : ℕ

abbrev fuse_notify_poll_wakeup_out_to_fields : FuseNotifyPollWakeupOut → Fields (u64 ∷ [])
fuse_notify_poll_wakeup_out_to_fields t = (t.kh, tt)

abbrev fuse_notify_poll_wakeup_out_of_fields : Fields (u64 ∷ []) → FuseNotifyPollWakeupOut
fuse_notify_poll_wakeup_out_of_fields (kh, _) = record { kh = kh }

instance abbrev pub fuse_notify_poll_wakeup_out_struct : Struct FuseNotifyPollWakeupOut
fuse_notify_poll_wakeup_out_struct = record {
  layout = u64 ∷ [];
  to_fields = fuse_notify_poll_wakeup_out_to_fields;
  of_fields = fuse_notify_poll_wakeup_out_of_fields;
  of_fields-to_fields = λ t. refl;
  to_fields-of_fields = λ f. refl;
}
