-- ===== src/Ll/Request.antt =====
-- Low-level requests (src/ll/request.rs): parsing a packet of the kernel into a header and an
-- operation, and the accessors.
pub mod Errors
pub mod RoundTrip
use async_fuse_rs.Prelude.{ℕ, ltb, if◌then◌else◌, Option, none, some, length}
use async_fuse_rs.Bytes.{Bytes}
use async_fuse_rs.Abi.FileRequests.{FuseInHeader, in_header_repr}
use async_fuse_rs.Abi.Opcode
use async_fuse_rs.Ll.Argument
use async_fuse_rs.Ll.Argument.{fetch}
use async_fuse_rs.Ll.Operation.{Operation, parse}

pub data RequestError : Type 0 where
  short_read_header : ℕ → RequestError
  unknown_operation : ℕ → RequestError
  short_read : ℕ → ℕ → RequestError
  insufficient_data : RequestError

pub record Request : Type 0 where
  pub header : FuseInHeader
  pub operation : Operation

pub data Result (T : Type 0) : Type 0 where
  err : RequestError → Result T
  ok : T → Result T

-- The operator `?`, and `Option::ok_or`.
infixl 5 ◌>>=◌
abbrev pub ◌>>=◌ : {T U : Type 0} → Result T → (T → Result U) → Result U
err problem >>= next = err problem
ok t >>= next = next t

abbrev pub ok_or : {T : Type 0} → Option T → RequestError → Result T
ok_or (some t) problem = ok t
ok_or none problem = err problem

-- `Request::try_from(data)`. The iterator is the one that the fetches before leave.
unfoldable pub try_from : Bytes → Result Request
try_from bytes = do
  let data_len = length bytes
  let (fetched, it) = fetch in_header_repr (Argument.new bytes)
  header ← ok_or fetched (short_read_header (Argument.len it))
  opcode ← ok_or (Opcode.try_from header.opcode) (unknown_operation header.opcode)
  _ ← if ltb data_len header.len then err (short_read data_len header.len) else ok tt
  operation ← ok_or (parse opcode it).0 insufficient_data
  ok (record { header = header; operation = operation })

unfoldable pub unique : Request → ℕ
unique r = r.header.unique

unfoldable pub nodeid : Request → ℕ
nodeid r = r.header.nodeid

unfoldable pub uid : Request → ℕ
uid r = r.header.uid

unfoldable pub gid : Request → ℕ
gid r = r.header.gid

unfoldable pub pid : Request → ℕ
pid r = r.header.pid
