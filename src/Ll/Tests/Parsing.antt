-- ===== src/Ll/Tests/Parsing.antt =====
-- The tests of src/ll/request.rs, little endian. A test is the proposition that its assertions hold.
use async_fuse_rs.Prelude.{◌≡◌, refl, [], ◌∷◌, take}
use async_fuse_rs.Bytes.{Bytes, from_le_bytes}
use async_fuse_rs.Abi.Layout.{decode}
use async_fuse_rs.Abi.Requests.{FuseMknodIn}
use async_fuse_rs.Abi.FileRequests.{FuseInitIn}
use async_fuse_rs.Abi.Opcode
use async_fuse_rs.Ll.Argument
use async_fuse_rs.Ll.Argument.{fetch, fetch_bytes, fetch_str, fetch_str_at, position_zero}
use async_fuse_rs.Ll.Operation
use async_fuse_rs.Ll.Operation.{parse}
use async_fuse_rs.Ll.Request
use async_fuse_rs.Ll.Request.{Request, ok, err, short_read_header, short_read, try_from}

-- `INIT_REQUEST` of src/ll/request.rs, little endian.
abbrev pub init_request : Bytes
init_request =
    0x38 ∷ 0x00 ∷ 0x00 ∷ 0x00 ∷ 0x1a ∷ 0x00 ∷ 0x00 ∷ 0x00 ∷ 0x0d ∷ 0xf0 ∷ 0xad ∷ 0xba ∷ 0xef ∷ 0xbe
    ∷ 0xad ∷ 0xde ∷ 0x88 ∷ 0x77 ∷ 0x66 ∷ 0x55 ∷ 0x44 ∷ 0x33 ∷ 0x22 ∷ 0x11 ∷ 0x0d ∷ 0xd0 ∷ 0x01
    ∷ 0xc0 ∷ 0xfe ∷ 0xca ∷ 0x01 ∷ 0xc0 ∷ 0x5e ∷ 0xba ∷ 0xde ∷ 0xc0 ∷ 0x00 ∷ 0x00 ∷ 0x00 ∷ 0x00
    ∷ 0x07 ∷ 0x00 ∷ 0x00 ∷ 0x00 ∷ 0x08 ∷ 0x00 ∷ 0x00 ∷ 0x00 ∷ 0x00 ∷ 0x10 ∷ 0x00 ∷ 0x00 ∷ 0x00
    ∷ 0x00 ∷ 0x00 ∷ 0x00 ∷ []

abbrev pub init_parsed : Request
init_parsed = record {
  header = record {
    len = 56;
    opcode = 26;
    unique = 0xdead_beef_baad_f00d;
    nodeid = 0x1122_3344_5566_7788;
    uid = 0xc001_d00d;
    gid = 0xc001_cafe;
    pid = 0xc0de_ba5e;
    padding = 0;
  };
  operation = Operation.init (record { major = 7; minor = 8; max_readahead = 4096; flags = 0 });
}

-- `MKNOD_REQUEST` of src/ll/request.rs, little endian.
abbrev pub mknod_request : Bytes
mknod_request =
    0x38 ∷ 0x00 ∷ 0x00 ∷ 0x00 ∷ 0x08 ∷ 0x00 ∷ 0x00 ∷ 0x00 ∷ 0x0d ∷ 0xf0 ∷ 0xad ∷ 0xba ∷ 0xef ∷ 0xbe
    ∷ 0xad ∷ 0xde ∷ 0x88 ∷ 0x77 ∷ 0x66 ∷ 0x55 ∷ 0x44 ∷ 0x33 ∷ 0x22 ∷ 0x11 ∷ 0x0d ∷ 0xd0 ∷ 0x01
    ∷ 0xc0 ∷ 0xfe ∷ 0xca ∷ 0x01 ∷ 0xc0 ∷ 0x5e ∷ 0xba ∷ 0xde ∷ 0xc0 ∷ 0x00 ∷ 0x00 ∷ 0x00 ∷ 0x00
    ∷ 0xa4 ∷ 0x01 ∷ 0x00 ∷ 0x00 ∷ 0x00 ∷ 0x00 ∷ 0x00 ∷ 0x00 ∷ 0x66 ∷ 0x6f ∷ 0x6f ∷ 0x2e ∷ 0x74
    ∷ 0x78 ∷ 0x74 ∷ 0x00 ∷ []

abbrev pub foo_txt : Bytes
foo_txt = 0x66 ∷ 0x6f ∷ 0x6f ∷ 0x2e ∷ 0x74 ∷ 0x78 ∷ 0x74 ∷ []

abbrev pub mknod_parsed : Request
mknod_parsed = record {
  header = record {
    len = 56;
    opcode = 8;
    unique = 0xdead_beef_baad_f00d;
    nodeid = 0x1122_3344_5566_7788;
    uid = 0xc001_d00d;
    gid = 0xc001_cafe;
    pid = 0xc0de_ba5e;
    padding = 0;
  };
  operation = Operation.mk_nod (record { mode = 0o644; rdev = 0 }) foo_txt;
}

-- `short_read_header`.
abbrev ShortReadHeaderTest : Type 0
ShortReadHeaderTest = try_from (take 20 init_request) ≡ err (short_read_header 20)

short_read_header_lem : ShortReadHeaderTest
unfolding try_from fetch fetch_bytes decode from_le_bytes Argument.new Argument.len
short_read_header_lem = refl

-- `short_read`.
abbrev ShortReadTest : Type 0
ShortReadTest = try_from (take 48 init_request) ≡ err (short_read 48 56)

short_read_lem : ShortReadTest
unfolding try_from fetch fetch_bytes decode from_le_bytes Opcode.try_from Argument.new
short_read_lem = refl

pub init_lem : try_from init_request ≡ ok init_parsed
unfolding try_from fetch fetch_bytes decode from_le_bytes parse Opcode.try_from Argument.new
init_lem = refl

-- `init`.
abbrev InitTest : Type 0
InitTest =
    (req : Request) × (try_from init_request ≡ ok req)
    × (req.header.len ≡ 56)
    × (req.header.opcode ≡ 26)
    × (Request.unique req ≡ 0xdead_beef_baad_f00d)
    × (Request.nodeid req ≡ 0x1122_3344_5566_7788)
    × (Request.uid req ≡ 0xc001_d00d)
    × (Request.gid req ≡ 0xc001_cafe)
    × (Request.pid req ≡ 0xc0de_ba5e)
    × (arg : FuseInitIn) × (req.operation ≡ Operation.init arg)
    × (arg.major ≡ 7)
    × (arg.minor ≡ 8)
    × (arg.max_readahead ≡ 4096)

init_passes : InitTest
unfolding Request.unique Request.nodeid Request.uid Request.gid Request.pid
init_passes = (
  init_parsed,
  init_lem,
  refl,
  refl,
  refl,
  refl,
  refl,
  refl,
  refl,
  (record { major = 7; minor = 8; max_readahead = 4096; flags = 0 }),
  refl,
  refl,
  refl,
  refl,
)

mknod_lem : try_from mknod_request ≡ ok mknod_parsed
unfolding try_from fetch fetch_bytes fetch_str fetch_str_at position_zero decode from_le_bytes parse
    Opcode.try_from Argument.new
mknod_lem = refl

-- `mknod`.
abbrev MknodTest : Type 0
MknodTest =
    (req : Request) × (try_from mknod_request ≡ ok req)
    × (req.header.len ≡ 56)
    × (req.header.opcode ≡ 8)
    × (Request.unique req ≡ 0xdead_beef_baad_f00d)
    × (Request.nodeid req ≡ 0x1122_3344_5566_7788)
    × (Request.uid req ≡ 0xc001_d00d)
    × (Request.gid req ≡ 0xc001_cafe)
    × (Request.pid req ≡ 0xc0de_ba5e)
    × (arg : FuseMknodIn) × (name : Bytes) × (req.operation ≡ Operation.mk_nod arg name)
    × (arg.mode ≡ 0o644)
    × (name ≡ foo_txt)

mknod_passes : MknodTest
unfolding Request.unique Request.nodeid Request.uid Request.gid Request.pid
mknod_passes = (
  mknod_parsed,
  mknod_lem,
  refl,
  refl,
  refl,
  refl,
  refl,
  refl,
  refl,
  (record { mode = 0o644; rdev = 0 }),
  foo_txt,
  refl,
  refl,
  refl,
)
