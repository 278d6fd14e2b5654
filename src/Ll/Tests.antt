-- ===== src/Ll/Tests.antt =====
-- The theorems of the low-level requests at the data of the tests of src/ll/argument.rs and
-- src/ll/request.rs.
mod Arguments
mod Parsing
mod Macos
use async_fuse_rs.Prelude.{
  ◌≤◌, ◌<◌, ◌≡◌, ◌≢◌, ◌↔◌, refl, arith, [], ◌∷◌, none, some, take, drop, length, ◌++◌,
}
use async_fuse_rs.Bytes.{Bytes, to_le_bytes, from_le_bytes}
use async_fuse_rs.Abi.Layout.{pack, encode, decode}
use async_fuse_rs.Abi.Opcode
use async_fuse_rs.Abi.Opcode.{Opcode, code}
use async_fuse_rs.Abi.Opcode.Laws.{try_from_iff}
use async_fuse_rs.Ll.Argument
use async_fuse_rs.Ll.Argument.{fetch_bytes, fetch, fetch_all, fetch_str, position_zero}
use async_fuse_rs.Ll.Argument.Laws.{at, NoZero, fetch_str_iff}
use async_fuse_rs.Ll.Operation
use async_fuse_rs.Ll.Operation.{parse}
use async_fuse_rs.Ll.Wire.{args_before}
use async_fuse_rs.Ll.Request.{
  Request, ok, err, short_read_header, unknown_operation, short_read, insufficient_data, try_from,
}
use async_fuse_rs.Ll.Request.Errors.{
  header_of, behind_header, short_read_header_iff, unknown_operation_iff, short_read_iff,
  try_from-IsWireRequest,
}
use async_fuse_rs.Ll.Request.Errors.Insufficient.{insufficient_data_iff}
use async_fuse_rs.Ll.Display.{ascii, digits, display_error, display_operation, display_request}
use async_fuse_rs.Ll.Display.Laws.{number, display_request-number}
use async_fuse_rs.Ll.Tests.Arguments.{test_data}
use async_fuse_rs.Ll.Tests.Parsing.{
  init_request, init_parsed, init_lem, mknod_request, mknod_parsed,
}
use async_fuse_rs.Ll.Request.RoundTrip.{packet, IsWireRequest, try_from-packet}

fetch_str_iff_example :
    (fetch_str (at test_data) ≡ (some (0x66 ∷ []), at []))
    ↔ (NoZero (0x66 ∷ []) × (test_data ≡ 0x66 ∷ 0 ∷ []))
fetch_str_iff_example = fetch_str_iff (at test_data) (at []) (0x66 ∷ [])

mknod_wire : packet mknod_parsed [] ≡ mknod_request
unfolding packet encode pack to_le_bytes args_before
mknod_wire = refl

mknod_IsWireRequest : IsWireRequest mknod_parsed
unfolding code
mknod_IsWireRequest = omega arith

try_from-packet_example : try_from (packet mknod_parsed (7 ∷ 7 ∷ [])) ≡ ok mknod_parsed
unfolding packet encode pack to_le_bytes args_before
try_from-packet_example =
    try_from-packet mknod_parsed (7 ∷ 7 ∷ []) mknod_IsWireRequest (omega arith)

try_from-IsWireRequest_example :
    IsWireRequest init_parsed
    × (init_parsed.header ≡ header_of init_request)
    × (56 ≤ length init_request)
try_from-IsWireRequest_example =
    try_from-IsWireRequest init_request init_parsed (omega arith) init_lem

unknown_operation_iff_example : (try_from init_request ≡ err (unknown_operation 7)) ↔ (
    (40 ≤ length init_request)
    × (7 ≡ (header_of init_request).opcode)
    × ((op : Opcode) → code op ≢ 7))
unknown_operation_iff_example = unknown_operation_iff init_request 7

short_read_iff_example : (try_from (take 48 init_request) ≡ err (short_read 48 56)) ↔ (
    (40 ≤ length (take 48 init_request))
    × ((op : Opcode) × (code op ≡ (header_of (take 48 init_request)).opcode))
    × (48 ≡ length (take 48 init_request))
    × (56 ≡ (header_of (take 48 init_request)).len)
    × (48 < 56))
short_read_iff_example = short_read_iff (take 48 init_request) 48 56

-- A mknod whose name has no terminator.
abbrev mknod_cut : Bytes
mknod_cut = 0x37 ∷ drop 1 (take 55 mknod_request)

insufficient_data_iff_example : (try_from mknod_cut ≡ err insufficient_data) ↔ (
    (40 ≤ length mknod_cut)
    × ((header_of mknod_cut).len ≤ length mknod_cut)
    × (op : Opcode) × (code op ≡ (header_of mknod_cut).opcode)
    × ((parse op (behind_header mknod_cut)).0 ≡ none))
insufficient_data_iff_example = insufficient_data_iff mknod_cut

-- With names as they are.
init_line :
    display_request (λ name. name) init_parsed
    ≡ ascii
        "FUSE(16045690984229367821) ino 0x1122334455667788: INIT kernel ABI 7.8, flags 0x0, max readahead 4096"
unfolding display_request display_operation digits
init_line = refl

mknod_line :
    display_operation (λ name. name) mknod_parsed.operation
    ≡ ascii "MKNOD name foo.txt, mode 0o644, rdev 0"
unfolding display_operation digits
mknod_line = refl

short_read_line :
    display_error (short_read_header 20) ≡ ascii "Short read of FUSE request header (20 < 40)"
unfolding display_error digits
short_read_line = refl
