-- ===== src/Ll/Macos.antt =====
-- The variants of `Operation` of src/ll/request.rs that only macOS has, and how they are parsed.
pub mod Wire
use fuse_rs.Base.{ℕ, List}
use fuse_rs.Abi.Features.Opcode.{BuildOpcode}
use fuse_rs.Abi.Features.Opcode
use fuse_rs.Abi.Features.Structs.{FuseExchangeIn, fuse_exchange_in_struct}
use fuse_rs.Ll.Argument.{Fetch, ◌>>=◌, pure, fetch, fetch_str}

-- The opcodes of these variants.
pub data MacosOpcode : Type 0 where
  fuse_setvolname fuse_getxtimes fuse_exchange : MacosOpcode

abbrev pub variant : MacosOpcode → BuildOpcode
variant fuse_setvolname = Opcode.fuse_setvolname
variant fuse_getxtimes = Opcode.fuse_getxtimes
variant fuse_exchange = Opcode.fuse_exchange

pub data MacosOperation : Type 0 where
  set_vol_name : List ℕ → MacosOperation
  get_xtimes : MacosOperation
  exchange : FuseExchangeIn → List ℕ → List ℕ → MacosOperation

-- The arms of `Operation::parse` for them.
unfoldable pub parse_macos : MacosOpcode → Fetch MacosOperation
parse_macos fuse_setvolname = do name ← fetch_str; pure (set_vol_name name)
parse_macos fuse_getxtimes = pure get_xtimes
parse_macos fuse_exchange = do
  arg ← fetch {T = FuseExchangeIn}
  oldname ← fetch_str
  newname ← fetch_str
  pure (exchange arg oldname newname)

abbrev pub macos_opcode : MacosOperation → MacosOpcode
macos_opcode (set_vol_name _) = fuse_setvolname
macos_opcode get_xtimes = fuse_getxtimes
macos_opcode (exchange _ _ _) = fuse_exchange
