-- ===== src/Reply/Types.antt =====
-- The trait `Reply` of src/reply.rs, and the reply types that implement it: each is a struct around a
-- `ReplyRaw`. (`ReplyDirectory`, which does not implement it, is in Reply/Directory.) What a type's
-- `ReplyRaw` may be sent, the parameter `T` there, shows in the methods of Reply/Typed.
use fuse_rs.Base.{ℕ, ◌≡◌, refl, ℤ}
use fuse_rs.Platform.{Libc}
use fuse_rs.Effect.{ChannelSender, Outcome}
use fuse_rs.Reply.Raw.{ReplyRaw, new}
use fuse_rs.Reply.Raw

-- `create` is the trait's `new`. Every reply type has an `error` too, and is dropped by dropping the
-- `ReplyRaw` in it.
pub record Reply (R : Type 0) : Type 0 where
  pub create : ℕ → ChannelSender → R
  pub raw : R → ReplyRaw
  pub error : Libc → R → ℤ → Outcome (Unit {0})
  pub raw-create :
      (unique : ℕ) (sender : ChannelSender) → raw (create unique sender) ≡ new unique sender
  pub error_raw : (c : Libc) (r : R) (err : ℤ) → error c r err ≡ Raw.error c (raw r) err

abbrev pub create : {R : Type 0} ⦃rep : Reply R⦄ → ℕ → ChannelSender → R
create ⦃rep⦄ = rep.create

instance abbrev pub reply_raw : Reply ReplyRaw
reply_raw = record {
  create = new;
  raw = λ r. r;
  error = Raw.error;
  raw-create = λ unique sender. refl;
  error_raw = λ c r err. refl;
}

pub record ReplyEmpty : Type 0 where
  pub reply : ReplyRaw

abbrev pub empty_error : Libc → ReplyEmpty → ℤ → Outcome (Unit {0})
empty_error c r err = Raw.error c r.reply err

instance abbrev pub reply_empty : Reply ReplyEmpty
reply_empty = record {
  create = λ unique sender. record { reply = new unique sender };
  raw = λ r. r.reply;
  error = empty_error;
  raw-create = λ unique sender. refl;
  error_raw = λ c r err. refl;
}

pub record ReplyData : Type 0 where
  pub reply : ReplyRaw

abbrev pub data_error : Libc → ReplyData → ℤ → Outcome (Unit {0})
data_error c r err = Raw.error c r.reply err

instance abbrev pub reply_data : Reply ReplyData
reply_data = record {
  create = λ unique sender. record { reply = new unique sender };
  raw = λ r. r.reply;
  error = data_error;
  raw-create = λ unique sender. refl;
  error_raw = λ c r err. refl;
}

pub record ReplyEntry : Type 0 where
  pub reply : ReplyRaw

abbrev pub entry_error : Libc → ReplyEntry → ℤ → Outcome (Unit {0})
entry_error c r err = Raw.error c r.reply err

instance abbrev pub reply_entry : Reply ReplyEntry
reply_entry = record {
  create = λ unique sender. record { reply = new unique sender };
  raw = λ r. r.reply;
  error = entry_error;
  raw-create = λ unique sender. refl;
  error_raw = λ c r err. refl;
}

pub record ReplyAttr : Type 0 where
  pub reply : ReplyRaw

abbrev pub attr_error : Libc → ReplyAttr → ℤ → Outcome (Unit {0})
attr_error c r err = Raw.error c r.reply err

instance abbrev pub reply_attr : Reply ReplyAttr
reply_attr = record {
  create = λ unique sender. record { reply = new unique sender };
  raw = λ r. r.reply;
  error = attr_error;
  raw-create = λ unique sender. refl;
  error_raw = λ c r err. refl;
}

pub record ReplyOpen : Type 0 where
  pub reply : ReplyRaw

abbrev pub open_error : Libc → ReplyOpen → ℤ → Outcome (Unit {0})
open_error c r err = Raw.error c r.reply err

instance abbrev pub reply_open : Reply ReplyOpen
reply_open = record {
  create = λ unique sender. record { reply = new unique sender };
  raw = λ r. r.reply;
  error = open_error;
  raw-create = λ unique sender. refl;
  error_raw = λ c r err. refl;
}

pub record ReplyWrite : Type 0 where
  pub reply : ReplyRaw

abbrev pub write_error : Libc → ReplyWrite → ℤ → Outcome (Unit {0})
write_error c r err = Raw.error c r.reply err

instance abbrev pub reply_write : Reply ReplyWrite
reply_write = record {
  create = λ unique sender. record { reply = new unique sender };
  raw = λ r. r.reply;
  error = write_error;
  raw-create = λ unique sender. refl;
  error_raw = λ c r err. refl;
}

pub record ReplyStatfs : Type 0 where
  pub reply : ReplyRaw

abbrev pub statfs_error : Libc → ReplyStatfs → ℤ → Outcome (Unit {0})
statfs_error c r err = Raw.error c r.reply err

instance abbrev pub reply_statfs : Reply ReplyStatfs
reply_statfs = record {
  create = λ unique sender. record { reply = new unique sender };
  raw = λ r. r.reply;
  error = statfs_error;
  raw-create = λ unique sender. refl;
  error_raw = λ c r err. refl;
}

pub record ReplyCreate : Type 0 where
  pub reply : ReplyRaw

abbrev pub create_error : Libc → ReplyCreate → ℤ → Outcome (Unit {0})
create_error c r err = Raw.error c r.reply err

instance abbrev pub reply_create : Reply ReplyCreate
reply_create = record {
  create = λ unique sender. record { reply = new unique sender };
  raw = λ r. r.reply;
  error = create_error;
  raw-create = λ unique sender. refl;
  error_raw = λ c r err. refl;
}

pub record ReplyLock : Type 0 where
  pub reply : ReplyRaw

abbrev pub lock_error : Libc → ReplyLock → ℤ → Outcome (Unit {0})
lock_error c r err = Raw.error c r.reply err

instance abbrev pub reply_lock : Reply ReplyLock
reply_lock = record {
  create = λ unique sender. record { reply = new unique sender };
  raw = λ r. r.reply;
  error = lock_error;
  raw-create = λ unique sender. refl;
  error_raw = λ c r err. refl;
}

pub record ReplyBmap : Type 0 where
  pub reply : ReplyRaw

abbrev pub bmap_error : Libc → ReplyBmap → ℤ → Outcome (Unit {0})
bmap_error c r err = Raw.error c r.reply err

instance abbrev pub reply_bmap : Reply ReplyBmap
reply_bmap = record {
  create = λ unique sender. record { reply = new unique sender };
  raw = λ r. r.reply;
  error = bmap_error;
  raw-create = λ unique sender. refl;
  error_raw = λ c r err. refl;
}

pub record ReplyXattr : Type 0 where
  pub reply : ReplyRaw

abbrev pub xattr_error : Libc → ReplyXattr → ℤ → Outcome (Unit {0})
xattr_error c r err = Raw.error c r.reply err

instance abbrev pub reply_xattr : Reply ReplyXattr
reply_xattr = record {
  create = λ unique sender. record { reply = new unique sender };
  raw = λ r. r.reply;
  error = xattr_error;
  raw-create = λ unique sender. refl;
  error_raw = λ c r err. refl;
}
