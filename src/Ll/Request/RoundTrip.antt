-- ===== src/Ll/Request/RoundTrip.antt =====
-- Packets of the wire format, and their parsing (src/ll/request.rs).
use async_fuse_rs.Prelude.{◌≤◌, ◌≡◌, ap, ◌∙◌, some, length, ◌++◌, le→ltb}
use async_fuse_rs.Bytes.{Bytes}
use async_fuse_rs.Abi.Layout.{encode, Fits}
use async_fuse_rs.Abi.FileRequests.{in_header_repr}
use async_fuse_rs.Abi.Opcode
use async_fuse_rs.Abi.Opcode.Laws.{try_from-code}
use async_fuse_rs.Ll.Argument
use async_fuse_rs.Ll.Argument.{fetch}
use async_fuse_rs.Ll.Argument.Laws.{fetch-encode}
use async_fuse_rs.Ll.RoundTrip.{parse-args_before}
use async_fuse_rs.Ll.Wire.{opcode_of, args_before, IsWellFormed}
use async_fuse_rs.Ll.Request.{Request, ok, try_from}

-- The packet of a request, with the bytes that follow it.
unfoldable pub packet : Request → Bytes → Bytes
packet r rest = encode in_header_repr r.header ++ args_before r.operation rest

-- The header fits its fields and names the operation.
pub record IsWireRequest (r : Request) : Type 0 where
  pub header_fits : Fits in_header_repr r.header
  pub opcode_named : r.header.opcode ≡ Opcode.code (opcode_of r.operation)
  pub arguments_fit : IsWellFormed r.operation

-- A packet whose header fits its fields, names the operation's code and states no more bytes than there are,
-- with a well-formed operation behind it, is parsed into exactly that header and operation. Bytes
-- behind the arguments are ignored, whatever they are, unless the operation ends in a body.
pub try_from-packet :
    (r : Request) (rest : Bytes)
    → IsWireRequest r
    → r.header.len ≤ length (packet r rest)
    → try_from (packet r rest) ≡ ok r
unfolding try_from packet Argument.new
try_from-packet r rest w h =
    rw (fetch-encode in_header_repr r.header (args_before r.operation rest) w.header_fits)
      (rw named (rw (le→ltb _ _ h) (rw (parse-args_before r.operation rest w.arguments_fit))))
  where
    named : Opcode.try_from r.header.opcode ≡ some (opcode_of r.operation)
    named = ap Opcode.try_from w.opcode_named ∙ try_from-code (opcode_of r.operation)
