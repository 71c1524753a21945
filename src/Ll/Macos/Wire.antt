-- ===== src/Ll/Macos/Wire.antt =====
-- The bytes that the kernel of macOS sends for its own operations, and parsing them.
use fuse_rs.Base.{ℕ, ◌≡◌, refl, true, List, ◌∷◌, ◌++◌, some, All}
use fuse_rs.Abi.Layout.{to_bytes}
use fuse_rs.Abi.Features.{Build}
use fuse_rs.Abi.Features.Opcode.{build_try_from, build_code, is_in, build_try_from_iff}
use fuse_rs.Abi.Features.Structs.{fuse_exchange_in_struct}
use fuse_rs.Ll.Argument.Laws.{NonZero, from, fetch_str-append, fetch-to_bytes}
use fuse_rs.Ll.Operation.Wire.{InRange}
use fuse_rs.Ll.Macos.{
  MacosOpcode, fuse_setvolname, fuse_getxtimes, fuse_exchange, variant, MacosOperation,
  set_vol_name, get_xtimes, exchange, parse_macos, macos_opcode,
}

-- The arguments in front of `rest`, as for the operations of every build.
unfoldable pub encode_macos : MacosOperation → List ℕ → List ℕ
encode_macos (set_vol_name name) rest = name ++ 0 ∷ rest
encode_macos get_xtimes rest = rest
encode_macos (exchange arg oldname newname) rest =
    to_bytes arg ++ (oldname ++ 0 ∷ (newname ++ 0 ∷ rest))

-- Fields in range, and no zero byte in a name.
abbrev pub IsMacosWire : MacosOperation → Type 0
IsMacosWire (set_vol_name name) = All NonZero name
IsMacosWire get_xtimes = Unit {0}
IsMacosWire (exchange arg oldname newname) = InRange arg × All NonZero oldname × All NonZero newname

-- The arguments of an operation of macOS as its kernel sends them are parsed back to the
-- operation, and what stands behind them is left.
pub parse_macos-encode_macos :
    (op : MacosOperation) (rest : List ℕ)
    → IsMacosWire op
    → parse_macos (macos_opcode op) (from (encode_macos op rest)) ≡ (some op, from rest)
unfolding parse_macos encode_macos
parse_macos-encode_macos (set_vol_name name) rest h = rw (fetch_str-append name rest h)
parse_macos-encode_macos get_xtimes rest h = refl
parse_macos-encode_macos (exchange arg oldname newname) rest h = rw (
  fetch-to_bytes arg (oldname ++ 0 ∷ (newname ++ 0 ∷ rest)) h.0,
  fetch_str-append oldname (newname ++ 0 ∷ rest) h.1,
  fetch_str-append newname rest h.2,
)

variant-is_in : (b : Build) (op : MacosOpcode) → b.macos ≡ true → is_in b (variant op) ≡ true
unfolding is_in
variant-is_in b fuse_setvolname h = h
variant-is_in b fuse_getxtimes h = h
variant-is_in b fuse_exchange h = h

-- A build for macOS recognizes the numbers of these opcodes.
pub build_try_from-variant :
    (b : Build) (op : MacosOpcode)
    → b.macos ≡ true
    → build_try_from b (build_code (variant op)) ≡ some (variant op)
build_try_from-variant b op h =
    (build_try_from_iff b (build_code (variant op)) (variant op)).1 (refl, variant-is_in b op h)
