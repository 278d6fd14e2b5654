-- ===== src/Ll/MacosRequest.antt =====
-- Parsing a packet on macOS (src/ll/request.rs).
pub mod RoundTrip
use async_fuse_rs.Prelude.{
  ◌≤◌, ℕ, ltb, if◌then◌else◌, Option, none, some, length, ◌≡◌, refl, ◌∙◌, inl, inr,
}
use async_fuse_rs.Bytes.{Bytes}
use async_fuse_rs.Abi.FileRequests.{FuseInHeader, in_header_repr}
use async_fuse_rs.Abi.Opcode
use async_fuse_rs.Abi.Opcode.{Opcode, code}
use async_fuse_rs.Abi.Opcode.Laws.{try_from_iff}
use async_fuse_rs.Ll.Argument
use async_fuse_rs.Ll.Argument.{ArgumentIterator, fetch, after, pure}
use async_fuse_rs.Ll.Argument.Laws.{at, fetch_short, fetch_enough}
use async_fuse_rs.Ll.Request.Errors.{
  header_of, behind_header, try_from_long, try_from_short, Size-cases,
}
use async_fuse_rs.Ll.Operation.{Operation, parse}
use async_fuse_rs.Ll.Request.{
  Request, Result, ◌>>=◌, err, ok, ok_or, short_read_header, unknown_operation, short_read,
  insufficient_data, try_from,
}
use async_fuse_rs.Ll.MacosOperation.{
  MacosOpcode, MacosOperation, common, shared, macos_opcode, macos_parse, IsShared,
  macos_parse-common,
}

pub record MacosRequest : Type 0 where
  pub header : FuseInHeader
  pub operation : MacosOperation

-- `Request::try_from(data)`.
unfoldable pub macos_try_from : Bytes → Result MacosRequest
unfolding macos_opcode macos_parse
macos_try_from bytes = do
  let data_len = length bytes
  let (fetched, it) = fetch in_header_repr (Argument.new bytes)
  header ← ok_or fetched (short_read_header (Argument.len it))
  opcode ← ok_or (macos_opcode header.opcode) (unknown_operation header.opcode)
  _ ← if ltb data_len header.len then err (short_read data_len header.len) else ok tt
  operation ← ok_or (macos_parse opcode it).0 insufficient_data
  ok (record { header = header; operation = operation })
