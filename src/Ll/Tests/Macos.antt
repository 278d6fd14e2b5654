-- ===== src/Ll/Tests/Macos.antt =====
-- Packets on macOS: the mknod of the tests, and the name of a volume.
use async_fuse_rs.Prelude.{arith, ◌≡◌, refl, [], ◌∷◌, ◌++◌, drop}
use async_fuse_rs.Bytes.{Bytes, from_le_bytes, to_le_bytes}
use async_fuse_rs.Abi.Layout.{decode, encode, pack}
use async_fuse_rs.Abi.Opcode
use async_fuse_rs.Abi.Opcode.{code}
use async_fuse_rs.Ll.Argument
use async_fuse_rs.Ll.Argument.{fetch, fetch_bytes, fetch_str, fetch_str_at, position_zero}
use async_fuse_rs.Ll.Request.{Result, ok}
use async_fuse_rs.Ll.MacosOperation.{set_vol_name, exchange_files, macos_opcode, macos_parse}
use async_fuse_rs.Ll.MacosRequest.{MacosRequest, macos_try_from}
use async_fuse_rs.Ll.MacosRequest.RoundTrip.{macos_packet, macos_try_from-packet}
use async_fuse_rs.Ll.Tests.Parsing.{mknod_request}

-- The mknod with the code 61, which has its name behind the header.
abbrev rename_volume : Bytes
rename_volume =
    (0x30 ∷ 0x00 ∷ 0x00 ∷ 0x00 ∷ 0x3d ∷ 0x00 ∷ 0x00 ∷ 0x00 ∷ 0x0d ∷ 0xf0 ∷ 0xad ∷ 0xba ∷ 0xef ∷ 0xbe
      ∷ 0xad ∷ 0xde ∷ 0x88 ∷ 0x77 ∷ 0x66 ∷ 0x55 ∷ 0x44 ∷ 0x33 ∷ 0x22 ∷ 0x11 ∷ 0x0d ∷ 0xd0 ∷ 0x01
      ∷ 0xc0 ∷ 0xfe ∷ 0xca ∷ 0x01 ∷ 0xc0 ∷ 0x5e ∷ 0xba ∷ 0xde ∷ 0xc0 ∷ 0x00 ∷ 0x00 ∷ 0x00 ∷ 0x00
      ∷ [])
    ++ drop 48 mknod_request

abbrev volume_renamed : Result MacosRequest
volume_renamed = ok (record {
  header = record {
    len = 48;
    opcode = 61;
    unique = 0xdead_beef_baad_f00d;
    nodeid = 0x1122_3344_5566_7788;
    uid = 0xc001_d00d;
    gid = 0xc001_cafe;
    pid = 0xc0de_ba5e;
    padding = 0;
  };
  operation = set_vol_name (0x66 ∷ 0x6f ∷ 0x6f ∷ 0x2e ∷ 0x74 ∷ 0x78 ∷ 0x74 ∷ []);
})

rename_volume_lem : macos_try_from rename_volume ≡ volume_renamed
unfolding macos_try_from macos_opcode macos_parse fetch fetch_bytes fetch_str fetch_str_at
    position_zero decode from_le_bytes Opcode.try_from Argument.new
rename_volume_lem = refl

-- The exchange of "a" and "b" in two directories, with a byte behind it.
abbrev exchange_request : MacosRequest
exchange_request = record {
  header = record {
    len = 64;
    opcode = 63;
    unique = 9;
    nodeid = 1;
    uid = 0;
    gid = 0;
    pid = 0;
    padding = 0;
  };
  operation =
      exchange_files (record { olddir = 2; newdir = 3; options = 1 }) (0x61 ∷ []) (0x62 ∷ []);
}

macos_try_from-packet_example :
    macos_try_from (macos_packet exchange_request (7 ∷ [])) ≡ ok exchange_request
unfolding macos_packet encode pack to_le_bytes
macos_try_from-packet_example =
    macos_try_from-packet exchange_request (7 ∷ [])
      (record {
        header_fits = omega arith;
        opcode_named = refl;
        arguments_fit = (omega arith, omega arith, omega arith);
      })
      (omega arith)
