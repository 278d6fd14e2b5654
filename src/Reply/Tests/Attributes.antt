-- ===== src/Reply/Tests/Attributes.antt =====
-- The tests of src/reply.rs of the replies with attributes, byte for byte: each asserts other bytes on
-- macOS, and both are here.
use async_fuse_rs.Prelude.{◌≡◌, refl, List, [], ◌∷◌}
use async_fuse_rs.Bytes.{Bytes, to_le_bytes}
use async_fuse_rs.Abi.Layout.{pack, encode}
use async_fuse_rs.Libc.{linux}
use async_fuse_rs.FileAttr.{FileAttr, Duration, SystemTime, after_epoch, regular_file}
use async_fuse_rs.Reply.Raw
use async_fuse_rs.Reply.Attr.{mode_from_kind_and_perm, fuse_attr_from_attr}
use async_fuse_rs.Reply.Typed.{
  entry_new, entry_entry, attr_new, attr_attr, create_new, create_created, with_attr, entry_out,
  attr_out, open_out, create_out,
}
use async_fuse_rs.Reply.Tests.Serialize.{assert_sender, passes}
use async_fuse_rs.Reply.Macos.{
  macos_entry_entry, macos_attr_attr, macos_create_created, xtimes_new, xtimes_xtimes,
  macos_attr_from_attr, macos_entry_out, macos_attr_out, macos_create_out, xtimes_out, ok_or_unwind,
}

abbrev pub test_time : SystemTime
test_time = after_epoch (record { secs = 0x1234; nanos = 0x5678 })

abbrev pub test_ttl : Duration
test_ttl = record { secs = 0x8765; nanos = 0x4321 }

abbrev pub test_attr : FileAttr
test_attr = record {
  ino = 0x11;
  size = 0x22;
  blocks = 0x33;
  atime = test_time;
  mtime = test_time;
  ctime = test_time;
  crtime = test_time;
  kind = regular_file;
  perm = 0o644;
  nlink = 0x55;
  uid = 0x66;
  gid = 0x77;
  rdev = 0x88;
  flags = 0x99;
}

abbrev expected_entry : List Bytes
expected_entry =
    (0x88 ∷ 0x00 ∷ 0x00 ∷ 0x00 ∷ 0x00 ∷ 0x00 ∷ 0x00 ∷ 0x00 ∷ 0xef ∷ 0xbe ∷ 0xad ∷ 0xde ∷ 0x00 ∷ 0x00
      ∷ 0x00 ∷ 0x00 ∷ [])
    ∷ (0x11 ∷ 0x00 ∷ 0x00 ∷ 0x00 ∷ 0x00 ∷ 0x00 ∷ 0x00 ∷ 0x00 ∷ 0xaa ∷ 0x00 ∷ 0x00 ∷ 0x00 ∷ 0x00
        ∷ 0x00 ∷ 0x00 ∷ 0x00 ∷ 0x65 ∷ 0x87 ∷ 0x00 ∷ 0x00 ∷ 0x00 ∷ 0x00 ∷ 0x00 ∷ 0x00 ∷ 0x65 ∷ 0x87
        ∷ 0x00 ∷ 0x00 ∷ 0x00 ∷ 0x00 ∷ 0x00 ∷ 0x00 ∷ 0x21 ∷ 0x43 ∷ 0x00 ∷ 0x00 ∷ 0x21 ∷ 0x43 ∷ 0x00
        ∷ 0x00 ∷ 0x11 ∷ 0x00 ∷ 0x00 ∷ 0x00 ∷ 0x00 ∷ 0x00 ∷ 0x00 ∷ 0x00 ∷ 0x22 ∷ 0x00 ∷ 0x00 ∷ 0x00
        ∷ 0x00 ∷ 0x00 ∷ 0x00 ∷ 0x00 ∷ 0x33 ∷ 0x00 ∷ 0x00 ∷ 0x00 ∷ 0x00 ∷ 0x00 ∷ 0x00 ∷ 0x00 ∷ 0x34
        ∷ 0x12 ∷ 0x00 ∷ 0x00 ∷ 0x00 ∷ 0x00 ∷ 0x00 ∷ 0x00 ∷ 0x34 ∷ 0x12 ∷ 0x00 ∷ 0x00 ∷ 0x00 ∷ 0x00
        ∷ 0x00 ∷ 0x00 ∷ 0x34 ∷ 0x12 ∷ 0x00 ∷ 0x00 ∷ 0x00 ∷ 0x00 ∷ 0x00 ∷ 0x00 ∷ 0x78 ∷ 0x56 ∷ 0x00
        ∷ 0x00 ∷ 0x78 ∷ 0x56 ∷ 0x00 ∷ 0x00 ∷ 0x78 ∷ 0x56 ∷ 0x00 ∷ 0x00 ∷ 0xa4 ∷ 0x81 ∷ 0x00 ∷ 0x00
        ∷ 0x55 ∷ 0x00 ∷ 0x00 ∷ 0x00 ∷ 0x66 ∷ 0x00 ∷ 0x00 ∷ 0x00 ∷ 0x77 ∷ 0x00 ∷ 0x00 ∷ 0x00 ∷ 0x88
        ∷ 0x00 ∷ 0x00 ∷ 0x00 ∷ [])
    ∷ []

abbrev macos_entry : List Bytes
macos_entry =
    (0x98 ∷ 0x00 ∷ 0x00 ∷ 0x00 ∷ 0x00 ∷ 0x00 ∷ 0x00 ∷ 0x00 ∷ 0xef ∷ 0xbe ∷ 0xad ∷ 0xde ∷ 0x00 ∷ 0x00
      ∷ 0x00 ∷ 0x00 ∷ [])
    ∷ (0x11 ∷ 0x00 ∷ 0x00 ∷ 0x00 ∷ 0x00 ∷ 0x00 ∷ 0x00 ∷ 0x00 ∷ 0xaa ∷ 0x00 ∷ 0x00 ∷ 0x00 ∷ 0x00
        ∷ 0x00 ∷ 0x00 ∷ 0x00 ∷ 0x65 ∷ 0x87 ∷ 0x00 ∷ 0x00 ∷ 0x00 ∷ 0x00 ∷ 0x00 ∷ 0x00 ∷ 0x65 ∷ 0x87
        ∷ 0x00 ∷ 0x00 ∷ 0x00 ∷ 0x00 ∷ 0x00 ∷ 0x00 ∷ 0x21 ∷ 0x43 ∷ 0x00 ∷ 0x00 ∷ 0x21 ∷ 0x43 ∷ 0x00
        ∷ 0x00 ∷ 0x11 ∷ 0x00 ∷ 0x00 ∷ 0x00 ∷ 0x00 ∷ 0x00 ∷ 0x00 ∷ 0x00 ∷ 0x22 ∷ 0x00 ∷ 0x00 ∷ 0x00
        ∷ 0x00 ∷ 0x00 ∷ 0x00 ∷ 0x00 ∷ 0x33 ∷ 0x00 ∷ 0x00 ∷ 0x00 ∷ 0x00 ∷ 0x00 ∷ 0x00 ∷ 0x00 ∷ 0x34
        ∷ 0x12 ∷ 0x00 ∷ 0x00 ∷ 0x00 ∷ 0x00 ∷ 0x00 ∷ 0x00 ∷ 0x34 ∷ 0x12 ∷ 0x00 ∷ 0x00 ∷ 0x00 ∷ 0x00
        ∷ 0x00 ∷ 0x00 ∷ 0x34 ∷ 0x12 ∷ 0x00 ∷ 0x00 ∷ 0x00 ∷ 0x00 ∷ 0x00 ∷ 0x00 ∷ 0x34 ∷ 0x12 ∷ 0x00
        ∷ 0x00 ∷ 0x00 ∷ 0x00 ∷ 0x00 ∷ 0x00 ∷ 0x78 ∷ 0x56 ∷ 0x00 ∷ 0x00 ∷ 0x78 ∷ 0x56 ∷ 0x00 ∷ 0x00
        ∷ 0x78 ∷ 0x56 ∷ 0x00 ∷ 0x00 ∷ 0x78 ∷ 0x56 ∷ 0x00 ∷ 0x00 ∷ 0xa4 ∷ 0x81 ∷ 0x00 ∷ 0x00 ∷ 0x55
        ∷ 0x00 ∷ 0x00 ∷ 0x00 ∷ 0x66 ∷ 0x00 ∷ 0x00 ∷ 0x00 ∷ 0x77 ∷ 0x00 ∷ 0x00 ∷ 0x00 ∷ 0x88 ∷ 0x00
        ∷ 0x00 ∷ 0x00 ∷ 0x99 ∷ 0x00 ∷ 0x00 ∷ 0x00 ∷ [])
    ∷ []

-- `reply_entry`: `cfg!(target_os = "macos")` chooses the bytes.
abbrev ReplyEntryTest : Type 0
ReplyEntryTest =
    (entry_entry linux (entry_new 0xdeadbeef assert_sender) test_ttl test_attr 0xaa
      ≡ passes expected_entry)
    × (macos_entry_entry linux (entry_new 0xdeadbeef assert_sender) test_ttl test_attr 0xaa
        ≡ passes macos_entry)

reply_entry : ReplyEntryTest
unfolding Raw.new encode pack to_le_bytes mode_from_kind_and_perm Raw.consume Raw.ok Raw.error
    with_attr fuse_attr_from_attr entry_out macos_entry_entry macos_entry_out macos_attr_from_attr
    ok_or_unwind
reply_entry = (refl, refl)

abbrev expected_attr : List Bytes
expected_attr =
    (0x70 ∷ 0x00 ∷ 0x00 ∷ 0x00 ∷ 0x00 ∷ 0x00 ∷ 0x00 ∷ 0x00 ∷ 0xef ∷ 0xbe ∷ 0xad ∷ 0xde ∷ 0x00 ∷ 0x00
      ∷ 0x00 ∷ 0x00 ∷ [])
    ∷ (0x65 ∷ 0x87 ∷ 0x00 ∷ 0x00 ∷ 0x00 ∷ 0x00 ∷ 0x00 ∷ 0x00 ∷ 0x21 ∷ 0x43 ∷ 0x00 ∷ 0x00 ∷ 0x00
        ∷ 0x00 ∷ 0x00 ∷ 0x00 ∷ 0x11 ∷ 0x00 ∷ 0x00 ∷ 0x00 ∷ 0x00 ∷ 0x00 ∷ 0x00 ∷ 0x00 ∷ 0x22 ∷ 0x00
        ∷ 0x00 ∷ 0x00 ∷ 0x00 ∷ 0x00 ∷ 0x00 ∷ 0x00 ∷ 0x33 ∷ 0x00 ∷ 0x00 ∷ 0x00 ∷ 0x00 ∷ 0x00 ∷ 0x00
        ∷ 0x00 ∷ 0x34 ∷ 0x12 ∷ 0x00 ∷ 0x00 ∷ 0x00 ∷ 0x00 ∷ 0x00 ∷ 0x00 ∷ 0x34 ∷ 0x12 ∷ 0x00 ∷ 0x00
        ∷ 0x00 ∷ 0x00 ∷ 0x00 ∷ 0x00 ∷ 0x34 ∷ 0x12 ∷ 0x00 ∷ 0x00 ∷ 0x00 ∷ 0x00 ∷ 0x00 ∷ 0x00 ∷ 0x78
        ∷ 0x56 ∷ 0x00 ∷ 0x00 ∷ 0x78 ∷ 0x56 ∷ 0x00 ∷ 0x00 ∷ 0x78 ∷ 0x56 ∷ 0x00 ∷ 0x00 ∷ 0xa4 ∷ 0x81
        ∷ 0x00 ∷ 0x00 ∷ 0x55 ∷ 0x00 ∷ 0x00 ∷ 0x00 ∷ 0x66 ∷ 0x00 ∷ 0x00 ∷ 0x00 ∷ 0x77 ∷ 0x00 ∷ 0x00
        ∷ 0x00 ∷ 0x88 ∷ 0x00 ∷ 0x00 ∷ 0x00 ∷ [])
    ∷ []

abbrev macos_attr : List Bytes
macos_attr =
    (0x80 ∷ 0x00 ∷ 0x00 ∷ 0x00 ∷ 0x00 ∷ 0x00 ∷ 0x00 ∷ 0x00 ∷ 0xef ∷ 0xbe ∷ 0xad ∷ 0xde ∷ 0x00 ∷ 0x00
      ∷ 0x00 ∷ 0x00 ∷ [])
    ∷ (0x65 ∷ 0x87 ∷ 0x00 ∷ 0x00 ∷ 0x00 ∷ 0x00 ∷ 0x00 ∷ 0x00 ∷ 0x21 ∷ 0x43 ∷ 0x00 ∷ 0x00 ∷ 0x00
        ∷ 0x00 ∷ 0x00 ∷ 0x00 ∷ 0x11 ∷ 0x00 ∷ 0x00 ∷ 0x00 ∷ 0x00 ∷ 0x00 ∷ 0x00 ∷ 0x00 ∷ 0x22 ∷ 0x00
        ∷ 0x00 ∷ 0x00 ∷ 0x00 ∷ 0x00 ∷ 0x00 ∷ 0x00 ∷ 0x33 ∷ 0x00 ∷ 0x00 ∷ 0x00 ∷ 0x00 ∷ 0x00 ∷ 0x00
        ∷ 0x00 ∷ 0x34 ∷ 0x12 ∷ 0x00 ∷ 0x00 ∷ 0x00 ∷ 0x00 ∷ 0x00 ∷ 0x00 ∷ 0x34 ∷ 0x12 ∷ 0x00 ∷ 0x00
        ∷ 0x00 ∷ 0x00 ∷ 0x00 ∷ 0x00 ∷ 0x34 ∷ 0x12 ∷ 0x00 ∷ 0x00 ∷ 0x00 ∷ 0x00 ∷ 0x00 ∷ 0x00 ∷ 0x34
        ∷ 0x12 ∷ 0x00 ∷ 0x00 ∷ 0x00 ∷ 0x00 ∷ 0x00 ∷ 0x00 ∷ 0x78 ∷ 0x56 ∷ 0x00 ∷ 0x00 ∷ 0x78 ∷ 0x56
        ∷ 0x00 ∷ 0x00 ∷ 0x78 ∷ 0x56 ∷ 0x00 ∷ 0x00 ∷ 0x78 ∷ 0x56 ∷ 0x00 ∷ 0x00 ∷ 0xa4 ∷ 0x81 ∷ 0x00
        ∷ 0x00 ∷ 0x55 ∷ 0x00 ∷ 0x00 ∷ 0x00 ∷ 0x66 ∷ 0x00 ∷ 0x00 ∷ 0x00 ∷ 0x77 ∷ 0x00 ∷ 0x00 ∷ 0x00
        ∷ 0x88 ∷ 0x00 ∷ 0x00 ∷ 0x00 ∷ 0x99 ∷ 0x00 ∷ 0x00 ∷ 0x00 ∷ [])
    ∷ []

-- `reply_attr`: `cfg!(target_os = "macos")` chooses the bytes.
abbrev ReplyAttrTest : Type 0
ReplyAttrTest =
    (attr_attr linux (attr_new 0xdeadbeef assert_sender) test_ttl test_attr ≡ passes expected_attr)
    × (macos_attr_attr linux (attr_new 0xdeadbeef assert_sender) test_ttl test_attr
        ≡ passes macos_attr)

reply_attr : ReplyAttrTest
unfolding Raw.new encode pack to_le_bytes mode_from_kind_and_perm Raw.consume Raw.ok Raw.error
    with_attr fuse_attr_from_attr attr_out macos_attr_attr macos_attr_out macos_attr_from_attr
    ok_or_unwind
reply_attr = (refl, refl)

abbrev expected_create : List Bytes
expected_create =
    (0x98 ∷ 0x00 ∷ 0x00 ∷ 0x00 ∷ 0x00 ∷ 0x00 ∷ 0x00 ∷ 0x00 ∷ 0xef ∷ 0xbe ∷ 0xad ∷ 0xde ∷ 0x00 ∷ 0x00
      ∷ 0x00 ∷ 0x00 ∷ [])
    ∷ (0x11 ∷ 0x00 ∷ 0x00 ∷ 0x00 ∷ 0x00 ∷ 0x00 ∷ 0x00 ∷ 0x00 ∷ 0xaa ∷ 0x00 ∷ 0x00 ∷ 0x00 ∷ 0x00
        ∷ 0x00 ∷ 0x00 ∷ 0x00 ∷ 0x65 ∷ 0x87 ∷ 0x00 ∷ 0x00 ∷ 0x00 ∷ 0x00 ∷ 0x00 ∷ 0x00 ∷ 0x65 ∷ 0x87
        ∷ 0x00 ∷ 0x00 ∷ 0x00 ∷ 0x00 ∷ 0x00 ∷ 0x00 ∷ 0x21 ∷ 0x43 ∷ 0x00 ∷ 0x00 ∷ 0x21 ∷ 0x43 ∷ 0x00
        ∷ 0x00 ∷ 0x11 ∷ 0x00 ∷ 0x00 ∷ 0x00 ∷ 0x00 ∷ 0x00 ∷ 0x00 ∷ 0x00 ∷ 0x22 ∷ 0x00 ∷ 0x00 ∷ 0x00
        ∷ 0x00 ∷ 0x00 ∷ 0x00 ∷ 0x00 ∷ 0x33 ∷ 0x00 ∷ 0x00 ∷ 0x00 ∷ 0x00 ∷ 0x00 ∷ 0x00 ∷ 0x00 ∷ 0x34
        ∷ 0x12 ∷ 0x00 ∷ 0x00 ∷ 0x00 ∷ 0x00 ∷ 0x00 ∷ 0x00 ∷ 0x34 ∷ 0x12 ∷ 0x00 ∷ 0x00 ∷ 0x00 ∷ 0x00
        ∷ 0x00 ∷ 0x00 ∷ 0x34 ∷ 0x12 ∷ 0x00 ∷ 0x00 ∷ 0x00 ∷ 0x00 ∷ 0x00 ∷ 0x00 ∷ 0x78 ∷ 0x56 ∷ 0x00
        ∷ 0x00 ∷ 0x78 ∷ 0x56 ∷ 0x00 ∷ 0x00 ∷ 0x78 ∷ 0x56 ∷ 0x00 ∷ 0x00 ∷ 0xa4 ∷ 0x81 ∷ 0x00 ∷ 0x00
        ∷ 0x55 ∷ 0x00 ∷ 0x00 ∷ 0x00 ∷ 0x66 ∷ 0x00 ∷ 0x00 ∷ 0x00 ∷ 0x77 ∷ 0x00 ∷ 0x00 ∷ 0x00 ∷ 0x88
        ∷ 0x00 ∷ 0x00 ∷ 0x00 ∷ 0xbb ∷ 0x00 ∷ 0x00 ∷ 0x00 ∷ 0x00 ∷ 0x00 ∷ 0x00 ∷ 0x00 ∷ 0xcc ∷ 0x00
        ∷ 0x00 ∷ 0x00 ∷ 0x00 ∷ 0x00 ∷ 0x00 ∷ 0x00 ∷ [])
    ∷ []

abbrev macos_create : List Bytes
macos_create =
    (0xa8 ∷ 0x00 ∷ 0x00 ∷ 0x00 ∷ 0x00 ∷ 0x00 ∷ 0x00 ∷ 0x00 ∷ 0xef ∷ 0xbe ∷ 0xad ∷ 0xde ∷ 0x00 ∷ 0x00
      ∷ 0x00 ∷ 0x00 ∷ [])
    ∷ (0x11 ∷ 0x00 ∷ 0x00 ∷ 0x00 ∷ 0x00 ∷ 0x00 ∷ 0x00 ∷ 0x00 ∷ 0xaa ∷ 0x00 ∷ 0x00 ∷ 0x00 ∷ 0x00
        ∷ 0x00 ∷ 0x00 ∷ 0x00 ∷ 0x65 ∷ 0x87 ∷ 0x00 ∷ 0x00 ∷ 0x00 ∷ 0x00 ∷ 0x00 ∷ 0x00 ∷ 0x65 ∷ 0x87
        ∷ 0x00 ∷ 0x00 ∷ 0x00 ∷ 0x00 ∷ 0x00 ∷ 0x00 ∷ 0x21 ∷ 0x43 ∷ 0x00 ∷ 0x00 ∷ 0x21 ∷ 0x43 ∷ 0x00
        ∷ 0x00 ∷ 0x11 ∷ 0x00 ∷ 0x00 ∷ 0x00 ∷ 0x00 ∷ 0x00 ∷ 0x00 ∷ 0x00 ∷ 0x22 ∷ 0x00 ∷ 0x00 ∷ 0x00
        ∷ 0x00 ∷ 0x00 ∷ 0x00 ∷ 0x00 ∷ 0x33 ∷ 0x00 ∷ 0x00 ∷ 0x00 ∷ 0x00 ∷ 0x00 ∷ 0x00 ∷ 0x00 ∷ 0x34
        ∷ 0x12 ∷ 0x00 ∷ 0x00 ∷ 0x00 ∷ 0x00 ∷ 0x00 ∷ 0x00 ∷ 0x34 ∷ 0x12 ∷ 0x00 ∷ 0x00 ∷ 0x00 ∷ 0x00
        ∷ 0x00 ∷ 0x00 ∷ 0x34 ∷ 0x12 ∷ 0x00 ∷ 0x00 ∷ 0x00 ∷ 0x00 ∷ 0x00 ∷ 0x00 ∷ 0x34 ∷ 0x12 ∷ 0x00
        ∷ 0x00 ∷ 0x00 ∷ 0x00 ∷ 0x00 ∷ 0x00 ∷ 0x78 ∷ 0x56 ∷ 0x00 ∷ 0x00 ∷ 0x78 ∷ 0x56 ∷ 0x00 ∷ 0x00
        ∷ 0x78 ∷ 0x56 ∷ 0x00 ∷ 0x00 ∷ 0x78 ∷ 0x56 ∷ 0x00 ∷ 0x00 ∷ 0xa4 ∷ 0x81 ∷ 0x00 ∷ 0x00 ∷ 0x55
        ∷ 0x00 ∷ 0x00 ∷ 0x00 ∷ 0x66 ∷ 0x00 ∷ 0x00 ∷ 0x00 ∷ 0x77 ∷ 0x00 ∷ 0x00 ∷ 0x00 ∷ 0x88 ∷ 0x00
        ∷ 0x00 ∷ 0x00 ∷ 0x99 ∷ 0x00 ∷ 0x00 ∷ 0x00 ∷ 0xbb ∷ 0x00 ∷ 0x00 ∷ 0x00 ∷ 0x00 ∷ 0x00 ∷ 0x00
        ∷ 0x00 ∷ 0xcc ∷ 0x00 ∷ 0x00 ∷ 0x00 ∷ 0x00 ∷ 0x00 ∷ 0x00 ∷ 0x00 ∷ [])
    ∷ []

-- `reply_create`: `cfg!(target_os = "macos")` chooses the bytes.
abbrev ReplyCreateTest : Type 0
ReplyCreateTest =
    (create_created linux (create_new 0xdeadbeef assert_sender) test_ttl test_attr 0xaa 0xbb 0xcc
      ≡ passes expected_create)
    × (macos_create_created linux (create_new 0xdeadbeef assert_sender) test_ttl test_attr 0xaa 0xbb
          0xcc
        ≡ passes macos_create)

reply_create : ReplyCreateTest
unfolding Raw.new encode pack to_le_bytes mode_from_kind_and_perm Raw.consume Raw.ok Raw.error
    with_attr fuse_attr_from_attr create_out entry_out open_out macos_create_created
    macos_create_out macos_attr_from_attr ok_or_unwind
reply_create = (refl, refl)

abbrev expected_xtimes : List Bytes
expected_xtimes =
    (0x28 ∷ 0x00 ∷ 0x00 ∷ 0x00 ∷ 0x00 ∷ 0x00 ∷ 0x00 ∷ 0x00 ∷ 0xef ∷ 0xbe ∷ 0xad ∷ 0xde ∷ 0x00 ∷ 0x00
      ∷ 0x00 ∷ 0x00 ∷ [])
    ∷ (0x34 ∷ 0x12 ∷ 0x00 ∷ 0x00 ∷ 0x00 ∷ 0x00 ∷ 0x00 ∷ 0x00 ∷ 0x34 ∷ 0x12 ∷ 0x00 ∷ 0x00 ∷ 0x00
        ∷ 0x00 ∷ 0x00 ∷ 0x00 ∷ 0x78 ∷ 0x56 ∷ 0x00 ∷ 0x00 ∷ 0x78 ∷ 0x56 ∷ 0x00 ∷ 0x00 ∷ [])
    ∷ []

-- `reply_xtimes`.
abbrev ReplyXtimesTest : Type 0
ReplyXtimesTest =
    xtimes_xtimes linux (xtimes_new 0xdeadbeef assert_sender) test_time test_time
    ≡ passes expected_xtimes

reply_xtimes : ReplyXtimesTest
unfolding Raw.new encode pack to_le_bytes Raw.consume Raw.ok xtimes_xtimes xtimes_out ok_or_unwind
reply_xtimes = refl
