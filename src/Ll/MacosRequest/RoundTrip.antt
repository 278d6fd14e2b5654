-- ===== src/Ll/MacosRequest/RoundTrip.antt =====
-- Packets of the wire format on macOS, and their parsing (src/ll/request.rs).
use async_fuse_rs.Prelude.{ℕ, ◌≤◌, ◌≡◌, refl, ap, ◌∙◌, some, length, ◌++◌, ◌∷◌, le→ltb}
use async_fuse_rs.Bytes.{Bytes}
use async_fuse_rs.Abi.Layout.{encode, Fits}
use async_fuse_rs.Abi.FileRequests.{in_header_repr}
use async_fuse_rs.Abi.MacosRequests.{
  macos_setattr_in_repr, macos_setxattr_in_repr, macos_getxattr_in_repr, exchange_in_repr,
}
use async_fuse_rs.Abi.Opcode
use async_fuse_rs.Abi.Opcode.{code}
use async_fuse_rs.Abi.Opcode.Laws.{try_from-code}
use async_fuse_rs.Ll.Argument
use async_fuse_rs.Ll.Argument.{fetch, fetch_all}
use async_fuse_rs.Ll.Argument.Laws.{at, NoZero, fetch-encode, fetch_str-append}
use async_fuse_rs.Ll.RoundTrip.{parse-args_before}
use async_fuse_rs.Ll.Wire.{opcode_of, args_before, IsWellFormed}
use async_fuse_rs.Ll.Request.{ok}
use async_fuse_rs.Ll.MacosOperation.{
  MacosOpcode, common, setvolname, getxtimes, exchange, macos_opcode, MacosOperation, shared,
  set_attr, set_x_attr, get_x_attr, list_x_attr, set_vol_name, get_x_times, exchange_files,
  macos_parse, IsShared, macos_parse-common,
}
use async_fuse_rs.Ll.MacosRequest.{MacosRequest, macos_try_from}

-- The codes of the operations on the wire.
abbrev macos_code_of : MacosOperation → ℕ
macos_code_of (shared op) = code (opcode_of op)
macos_code_of (set_attr _) = 4
macos_code_of (set_x_attr _ _ _) = 21
macos_code_of (get_x_attr _ _) = 22
macos_code_of (list_x_attr _) = 23
macos_code_of (set_vol_name _) = 61
macos_code_of get_x_times = 62
macos_code_of (exchange_files _ _ _) = 63

-- The arguments of an operation, with the bytes that follow them.
abbrev macos_args_before : MacosOperation → Bytes → Bytes
macos_args_before (shared op) rest = args_before op rest
macos_args_before (set_attr arg) rest = encode macos_setattr_in_repr arg ++ rest
macos_args_before (set_x_attr arg name value) _ =
    encode macos_setxattr_in_repr arg ++ (name ++ 0 ∷ value)
macos_args_before (get_x_attr arg name) rest =
    encode macos_getxattr_in_repr arg ++ (name ++ 0 ∷ rest)
macos_args_before (list_x_attr arg) rest = encode macos_getxattr_in_repr arg ++ rest
macos_args_before (set_vol_name name) rest = name ++ 0 ∷ rest
macos_args_before get_x_times rest = rest
macos_args_before (exchange_files arg oldname newname) rest =
    encode exchange_in_repr arg ++ (oldname ++ 0 ∷ (newname ++ 0 ∷ rest))

-- Strings hold no terminator, numbers fit their fields, and an operation whose struct differs on macOS has
-- the struct of macOS.
abbrev pub IsMacosWellFormed : MacosOperation → Type 0
IsMacosWellFormed (shared op) = IsShared (opcode_of op) × IsWellFormed op
IsMacosWellFormed (set_attr arg) = Fits macos_setattr_in_repr arg
IsMacosWellFormed (set_x_attr arg name value) = Fits macos_setxattr_in_repr arg × NoZero name
IsMacosWellFormed (get_x_attr arg name) = Fits macos_getxattr_in_repr arg × NoZero name
IsMacosWellFormed (list_x_attr arg) = Fits macos_getxattr_in_repr arg
IsMacosWellFormed (set_vol_name name) = NoZero name
IsMacosWellFormed get_x_times = Unit
IsMacosWellFormed (exchange_files arg oldname newname) =
    Fits exchange_in_repr arg × NoZero oldname × NoZero newname

abbrev macos_opcode_of : MacosOperation → MacosOpcode
macos_opcode_of (shared op) = common (opcode_of op)
macos_opcode_of (set_attr _) = common Opcode.setattr
macos_opcode_of (set_x_attr _ _ _) = common Opcode.setxattr
macos_opcode_of (get_x_attr _ _) = common Opcode.getxattr
macos_opcode_of (list_x_attr _) = common Opcode.listxattr
macos_opcode_of (set_vol_name _) = setvolname
macos_opcode_of get_x_times = getxtimes
macos_opcode_of (exchange_files _ _ _) = exchange

macos_opcode-code :
    (op : MacosOperation) → macos_opcode (macos_code_of op) ≡ some (macos_opcode_of op)
unfolding macos_opcode Opcode.try_from
macos_opcode-code (shared op) = rw (macos_opcode, try_from-code (opcode_of op)) refl
macos_opcode-code (set_attr _) = refl
macos_opcode-code _ = refl

macos_parse-args_before :
    (op : MacosOperation) (rest : Bytes)
    → IsMacosWellFormed op
    → (macos_parse (macos_opcode_of op) (at (macos_args_before op rest))).0 ≡ some op
unfolding macos_parse fetch_all
macos_parse-args_before (shared op) rest (same, h) =
    rw (macos_parse-common (opcode_of op) same) (rw (parse-args_before op rest h) refl)
macos_parse-args_before (set_attr arg) rest h =
    rw (fetch-encode macos_setattr_in_repr arg rest h) refl
macos_parse-args_before (set_x_attr arg name value) rest h =
    rw (fetch-encode macos_setxattr_in_repr arg (name ++ 0 ∷ value) h.0)
      (rw (fetch_str-append name value h.1) refl)
macos_parse-args_before (get_x_attr arg name) rest h =
    rw (fetch-encode macos_getxattr_in_repr arg (name ++ 0 ∷ rest) h.0)
      (rw (fetch_str-append name rest h.1) refl)
macos_parse-args_before (list_x_attr arg) rest h =
    rw (fetch-encode macos_getxattr_in_repr arg rest h) refl
macos_parse-args_before (set_vol_name name) rest h = rw (fetch_str-append name rest h) refl
macos_parse-args_before get_x_times rest h = refl
macos_parse-args_before (exchange_files arg oldname newname) rest h =
    rw (fetch-encode exchange_in_repr arg (oldname ++ 0 ∷ (newname ++ 0 ∷ rest)) h.0) (
      rw (fetch_str-append oldname (newname ++ 0 ∷ rest) h.1)
        (rw (fetch_str-append newname rest h.2) refl))

-- The packet of a request, with the bytes that follow it.
unfoldable pub macos_packet : MacosRequest → Bytes → Bytes
macos_packet r rest = encode in_header_repr r.header ++ macos_args_before r.operation rest

-- The header fits its fields and names the operation.
pub record IsMacosWireRequest (r : MacosRequest) : Type 0 where
  pub header_fits : Fits in_header_repr r.header
  pub opcode_named : r.header.opcode ≡ macos_code_of r.operation
  pub arguments_fit : IsMacosWellFormed r.operation

-- On macOS, a packet whose header fits its fields, names the operation's code and states no more bytes than
-- there are, with a well-formed operation behind it, is parsed into exactly that header and operation, the
-- operations with structs of macOS and those that only macOS has included. Bytes behind the
-- arguments are ignored, unless the operation ends in a body.
pub macos_try_from-packet :
    (r : MacosRequest) (rest : Bytes)
    → IsMacosWireRequest r
    → r.header.len ≤ length (macos_packet r rest)
    → macos_try_from (macos_packet r rest) ≡ ok r
unfolding macos_try_from macos_packet Argument.new
macos_try_from-packet r rest w h =
    rw (fetch-encode in_header_repr r.header (macos_args_before r.operation rest) w.header_fits) (
      rw named
        (rw (le→ltb _ _ h) (rw (macos_parse-args_before r.operation rest w.arguments_fit) refl)))
  where
    named : macos_opcode r.header.opcode ≡ some (macos_opcode_of r.operation)
    named = ap macos_opcode w.opcode_named ∙ macos_opcode-code r.operation
