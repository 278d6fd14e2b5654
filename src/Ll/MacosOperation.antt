-- ===== src/Ll/MacosOperation.antt =====
-- Operations on macOS (src/ll/request.rs): three more, and four whose structs have more fields.
use async_fuse_rs.Prelude.{ℕ, ◌≡◌, refl, ◌==◌, if◌then◌else◌, Option, none, some}
use async_fuse_rs.Bytes.{Bytes}
use async_fuse_rs.Abi.MacosRequests.{
  MacosSetattrIn, MacosSetxattrIn, MacosGetxattrIn, FuseExchangeIn, macos_setattr_in_repr,
  macos_setxattr_in_repr, macos_getxattr_in_repr, exchange_in_repr,
}
use async_fuse_rs.Abi.Opcode
use async_fuse_rs.Abi.Opcode.{Opcode}
use async_fuse_rs.Ll.Argument.{Fetch, ◌>>=◌, pure, fetch, fetch_str, fetch_all}
use async_fuse_rs.Ll.Operation.{Operation, parse}

-- The variants of `fuse_opcode`, and `try_from`: the arms of all systems stand before those of macOS.
pub data MacosOpcode : Type 0 where
  common : Opcode → MacosOpcode
  setvolname getxtimes exchange : MacosOpcode

unfoldable pub macos_opcode : ℕ → Option MacosOpcode
unfolding Opcode.try_from
macos_opcode n = elim (Opcode.try_from n) [
  | some op ↦ some (common op)
  | none ↦
      if n == 61
      then some setvolname
      else if n == 62
      then some getxtimes
      else if n == 63
      then some exchange
      else none
]

-- An operation with the structs of all systems, or one with a struct of macOS, or one of macOS only.
pub data MacosOperation : Type 0 where
  shared : Operation → MacosOperation
  set_attr : MacosSetattrIn → MacosOperation
  set_x_attr : MacosSetxattrIn → Bytes → Bytes → MacosOperation
  get_x_attr : MacosGetxattrIn → Bytes → MacosOperation
  list_x_attr : MacosGetxattrIn → MacosOperation
  set_vol_name : Bytes → MacosOperation
  get_x_times : MacosOperation
  exchange_files : FuseExchangeIn → Bytes → Bytes → MacosOperation

abbrev pub parse_shared : Opcode → Fetch MacosOperation
parse_shared op = do operation ← parse op; pure (shared operation)

unfoldable pub macos_parse : MacosOpcode → Fetch MacosOperation
unfolding parse
macos_parse (common Opcode.setattr) = do arg ← fetch macos_setattr_in_repr; pure (set_attr arg)
macos_parse (common Opcode.setxattr) = do
  arg ← fetch macos_setxattr_in_repr
  name ← fetch_str
  value ← fetch_all
  pure (set_x_attr arg name value)
macos_parse (common Opcode.getxattr) = do
  arg ← fetch macos_getxattr_in_repr
  name ← fetch_str
  pure (get_x_attr arg name)
macos_parse (common Opcode.listxattr) = do
  arg ← fetch macos_getxattr_in_repr
  pure (list_x_attr arg)
macos_parse (common op) = parse_shared op
macos_parse setvolname = do name ← fetch_str; pure (set_vol_name name)
macos_parse getxtimes = pure get_x_times
macos_parse exchange = do
  arg ← fetch exchange_in_repr
  oldname ← fetch_str
  newname ← fetch_str
  pure (exchange_files arg oldname newname)

-- The operations whose structs are the same on all systems.
abbrev pub IsShared : Opcode → Type 0
IsShared Opcode.setattr = ⊥
IsShared Opcode.setxattr = ⊥
IsShared Opcode.getxattr = ⊥
IsShared Opcode.listxattr = ⊥
IsShared _ = Unit

pub macos_parse-common : (op : Opcode) → IsShared op → macos_parse (common op) ≡ parse_shared op
unfolding macos_parse
macos_parse-common Opcode.setattr h = elim h [ ]
macos_parse-common Opcode.setxattr h = elim h [ ]
macos_parse-common Opcode.getxattr h = elim h [ ]
macos_parse-common Opcode.listxattr h = elim h [ ]
macos_parse-common _ h = refl
