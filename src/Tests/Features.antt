-- ===== src/Tests/Features.antt =====
-- Builds with features, and what is sent on macOS, at concrete inputs.
use fuse_rs.Base.{ℕ, ◌≡◌, refl, ◌↔◌, true, [], ◌∷◌, some, All, ◌==◌}
use fuse_rs.Abi.Features.{Build, feature, below_top}
use fuse_rs.Abi.Features.Version.{minor_versions, compiled, IsLastOf, compiled-minor_versions}
use fuse_rs.Abi.Features.Opcode.{fuse_poll, build_code, build_try_from, is_in, build_try_from_iff}
use fuse_rs.Abi.Features.Packed.{IsPacked, out_layout, entry_out, out_layout-IsPacked}
use fuse_rs.Platform.{duration_since_epoch}
use fuse_rs.Reply.Attr.{time_from_system_time, mode_from_kind_and_perm, format_of_kind}
use fuse_rs.Reply.Macos.{FuseAttr, fuse_attr_from_attr}
use fuse_rs.Reply.Macos.Readback.{read_all}
use fuse_rs.Reply.Attr.Readback.{read_attr, kind_of_mode}
use fuse_rs.Abi.Features.Flags.{init_xtimes, flags_of_init, init_flag_is_in, init_flag_shift}
use fuse_rs.Request.Granted.{Has, Among, IsInitFlag, mask, granted, build_init_flags, granted_iff}
use fuse_rs.Tests.{linux}
use fuse_rs.Tests.ReplyBytes.{file}

-- ABI 7.12 on macOS.
abbrev twelve : Build
twelve = record { asked = λ n. n == 12; macos = true }

compiled-minor_versions_example :
    (v : ℕ) × (compiled (minor_versions twelve) ≡ v ∷ []) × IsLastOf twelve v
compiled-minor_versions_example = compiled-minor_versions twelve

minor_versions_test : compiled (minor_versions twelve) ≡ 12 ∷ []
unfolding compiled minor_versions feature below_top
minor_versions_test = refl

build_try_from_iff_example :
    (build_try_from twelve 40 ≡ some fuse_poll)
    ↔ ((build_code fuse_poll ≡ 40) × (is_in twelve fuse_poll ≡ true))
build_try_from_iff_example = build_try_from_iff twelve 40 fuse_poll

out_layout-IsPacked_example : IsPacked (out_layout twelve entry_out)
out_layout-IsPacked_example = out_layout-IsPacked twelve entry_out

abbrev sent_there : FuseAttr
sent_there = record {
  ino = 17;
  size = 34;
  blocks = 51;
  atime = 4660;
  mtime = 4660;
  ctime = 4660;
  crtime = 4660;
  atimensec = 22136;
  mtimensec = 22136;
  ctimensec = 22136;
  crtimensec = 22136;
  mode = 33188;
  nlink = 85;
  uid = 102;
  gid = 119;
  rdev = 136;
  flags = 153;
}

file_on_macos : fuse_attr_from_attr linux file ≡ some sent_there
unfolding fuse_attr_from_attr time_from_system_time duration_since_epoch mode_from_kind_and_perm
    format_of_kind
file_on_macos = refl

read_all_test : read_all linux sent_there ≡ some file
unfolding read_all read_attr kind_of_mode format_of_kind
read_all_test = refl

granted_iff_example :
    (Has (granted twelve 4294967295) init_xtimes
      ↔ (Has 4294967295 init_xtimes × Among init_xtimes (build_init_flags twelve)))
    × (Among init_xtimes (build_init_flags twelve) ↔ IsInitFlag twelve init_xtimes)
    × All (λ f. init_flag_is_in twelve f ≡ true) (build_init_flags twelve)
granted_iff_example = granted_iff twelve 4294967295 init_xtimes

granted_test : granted twelve 3221225473 ≡ 3221225473
unfolding granted mask build_init_flags init_flag_shift
granted_test = refl
