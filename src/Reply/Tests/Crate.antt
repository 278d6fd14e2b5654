-- ===== src/Reply/Tests/Crate.antt =====
-- The tests of src/reply.rs of the replies with no attributes: what each sends, byte for byte.
use async_fuse_rs.Prelude.{◌≡◌, refl, List, [], ◌∷◌}
use async_fuse_rs.Bytes.{Bytes, to_le_bytes}
use async_fuse_rs.Abi.Layout.{pack, encode}
use async_fuse_rs.Libc.{linux}
use async_fuse_rs.FileAttr.{directory, regular_file}
use async_fuse_rs.Channel.{Message}
use async_fuse_rs.Reply.Raw
use async_fuse_rs.Reply.Attr.{mode_from_kind_and_perm, fuse_attr_from_attr}
use async_fuse_rs.Reply.Typed.{
  empty_new, empty_ok, data_new, data_data, open_new, open_opened, write_new, write_written,
  statfs_new, statfs_statfs, lock_new, lock_locked, bmap_new, bmap_bmap, xattr_new, xattr_size,
  xattr_data, with_attr, open_out, write_out, statfs_out, lk_out, bmap_out, xattr_out,
}
use async_fuse_rs.Reply.Tests.Serialize.{assert_sender, passes}
use async_fuse_rs.Reply.Directory
use async_fuse_rs.Reply.Directory.{Listing, add_entry, finish, add, run_listing}

abbrev expected_empty : List Bytes
expected_empty =
    (0x10 ∷ 0x00 ∷ 0x00 ∷ 0x00 ∷ 0x00 ∷ 0x00 ∷ 0x00 ∷ 0x00 ∷ 0xef ∷ 0xbe ∷ 0xad ∷ 0xde ∷ 0x00 ∷ 0x00
      ∷ 0x00 ∷ 0x00 ∷ [])
    ∷ []

-- `reply_empty`.
abbrev ReplyEmptyTest : Type 0
ReplyEmptyTest = empty_ok linux (empty_new 0xdeadbeef assert_sender) ≡ passes expected_empty

reply_empty : ReplyEmptyTest
unfolding Raw.new encode pack to_le_bytes mode_from_kind_and_perm Raw.consume Raw.ok Raw.error
    with_attr fuse_attr_from_attr
reply_empty = refl

abbrev expected_data : List Bytes
expected_data =
    (0x14 ∷ 0x00 ∷ 0x00 ∷ 0x00 ∷ 0x00 ∷ 0x00 ∷ 0x00 ∷ 0x00 ∷ 0xef ∷ 0xbe ∷ 0xad ∷ 0xde ∷ 0x00 ∷ 0x00
      ∷ 0x00 ∷ 0x00 ∷ [])
    ∷ (0xde ∷ 0xad ∷ 0xbe ∷ 0xef ∷ [])
    ∷ []

-- `reply_data`.
abbrev ReplyDataTest : Type 0
ReplyDataTest =
    data_data linux (data_new 0xdeadbeef assert_sender) (0xde ∷ 0xad ∷ 0xbe ∷ 0xef ∷ [])
    ≡ passes expected_data

reply_data : ReplyDataTest
unfolding Raw.new encode pack to_le_bytes mode_from_kind_and_perm Raw.consume Raw.ok Raw.error
    with_attr fuse_attr_from_attr
reply_data = refl

abbrev expected_open : List Bytes
expected_open =
    (0x20 ∷ 0x00 ∷ 0x00 ∷ 0x00 ∷ 0x00 ∷ 0x00 ∷ 0x00 ∷ 0x00 ∷ 0xef ∷ 0xbe ∷ 0xad ∷ 0xde ∷ 0x00 ∷ 0x00
      ∷ 0x00 ∷ 0x00 ∷ [])
    ∷ (0x22 ∷ 0x11 ∷ 0x00 ∷ 0x00 ∷ 0x00 ∷ 0x00 ∷ 0x00 ∷ 0x00 ∷ 0x33 ∷ 0x00 ∷ 0x00 ∷ 0x00 ∷ 0x00
        ∷ 0x00 ∷ 0x00 ∷ 0x00 ∷ [])
    ∷ []

-- `reply_open`.
abbrev ReplyOpenTest : Type 0
ReplyOpenTest =
    open_opened linux (open_new 0xdeadbeef assert_sender) 0x1122 0x33 ≡ passes expected_open

reply_open : ReplyOpenTest
unfolding Raw.new encode pack to_le_bytes mode_from_kind_and_perm Raw.consume Raw.ok Raw.error
    with_attr fuse_attr_from_attr open_out
reply_open = refl

abbrev expected_write : List Bytes
expected_write =
    (0x18 ∷ 0x00 ∷ 0x00 ∷ 0x00 ∷ 0x00 ∷ 0x00 ∷ 0x00 ∷ 0x00 ∷ 0xef ∷ 0xbe ∷ 0xad ∷ 0xde ∷ 0x00 ∷ 0x00
      ∷ 0x00 ∷ 0x00 ∷ [])
    ∷ (0x22 ∷ 0x11 ∷ 0x00 ∷ 0x00 ∷ 0x00 ∷ 0x00 ∷ 0x00 ∷ 0x00 ∷ [])
    ∷ []

-- `reply_write`.
abbrev ReplyWriteTest : Type 0
ReplyWriteTest =
    write_written linux (write_new 0xdeadbeef assert_sender) 0x1122 ≡ passes expected_write

reply_write : ReplyWriteTest
unfolding Raw.new encode pack to_le_bytes mode_from_kind_and_perm Raw.consume Raw.ok Raw.error
    with_attr fuse_attr_from_attr write_out
reply_write = refl

abbrev expected_statfs : List Bytes
expected_statfs =
    (0x60 ∷ 0x00 ∷ 0x00 ∷ 0x00 ∷ 0x00 ∷ 0x00 ∷ 0x00 ∷ 0x00 ∷ 0xef ∷ 0xbe ∷ 0xad ∷ 0xde ∷ 0x00 ∷ 0x00
      ∷ 0x00 ∷ 0x00 ∷ [])
    ∷ (0x11 ∷ 0x00 ∷ 0x00 ∷ 0x00 ∷ 0x00 ∷ 0x00 ∷ 0x00 ∷ 0x00 ∷ 0x22 ∷ 0x00 ∷ 0x00 ∷ 0x00 ∷ 0x00
        ∷ 0x00 ∷ 0x00 ∷ 0x00 ∷ 0x33 ∷ 0x00 ∷ 0x00 ∷ 0x00 ∷ 0x00 ∷ 0x00 ∷ 0x00 ∷ 0x00 ∷ 0x44 ∷ 0x00
        ∷ 0x00 ∷ 0x00 ∷ 0x00 ∷ 0x00 ∷ 0x00 ∷ 0x00 ∷ 0x55 ∷ 0x00 ∷ 0x00 ∷ 0x00 ∷ 0x00 ∷ 0x00 ∷ 0x00
        ∷ 0x00 ∷ 0x66 ∷ 0x00 ∷ 0x00 ∷ 0x00 ∷ 0x77 ∷ 0x00 ∷ 0x00 ∷ 0x00 ∷ 0x88 ∷ 0x00 ∷ 0x00 ∷ 0x00
        ∷ 0x00 ∷ 0x00 ∷ 0x00 ∷ 0x00 ∷ 0x00 ∷ 0x00 ∷ 0x00 ∷ 0x00 ∷ 0x00 ∷ 0x00 ∷ 0x00 ∷ 0x00 ∷ 0x00
        ∷ 0x00 ∷ 0x00 ∷ 0x00 ∷ 0x00 ∷ 0x00 ∷ 0x00 ∷ 0x00 ∷ 0x00 ∷ 0x00 ∷ 0x00 ∷ 0x00 ∷ 0x00 ∷ 0x00
        ∷ 0x00 ∷ 0x00 ∷ [])
    ∷ []

-- `reply_statfs`.
abbrev ReplyStatfsTest : Type 0
ReplyStatfsTest =
    statfs_statfs linux (statfs_new 0xdeadbeef assert_sender) 0x11 0x22 0x33 0x44 0x55 0x66 0x77
      0x88
    ≡ passes expected_statfs

reply_statfs : ReplyStatfsTest
unfolding Raw.new encode pack to_le_bytes mode_from_kind_and_perm Raw.consume Raw.ok Raw.error
    with_attr fuse_attr_from_attr statfs_out
reply_statfs = refl

abbrev expected_lock : List Bytes
expected_lock =
    (0x28 ∷ 0x00 ∷ 0x00 ∷ 0x00 ∷ 0x00 ∷ 0x00 ∷ 0x00 ∷ 0x00 ∷ 0xef ∷ 0xbe ∷ 0xad ∷ 0xde ∷ 0x00 ∷ 0x00
      ∷ 0x00 ∷ 0x00 ∷ [])
    ∷ (0x11 ∷ 0x00 ∷ 0x00 ∷ 0x00 ∷ 0x00 ∷ 0x00 ∷ 0x00 ∷ 0x00 ∷ 0x22 ∷ 0x00 ∷ 0x00 ∷ 0x00 ∷ 0x00
        ∷ 0x00 ∷ 0x00 ∷ 0x00 ∷ 0x33 ∷ 0x00 ∷ 0x00 ∷ 0x00 ∷ 0x44 ∷ 0x00 ∷ 0x00 ∷ 0x00 ∷ [])
    ∷ []

-- `reply_lock`.
abbrev ReplyLockTest : Type 0
ReplyLockTest =
    lock_locked linux (lock_new 0xdeadbeef assert_sender) 0x11 0x22 0x33 0x44 ≡ passes expected_lock

reply_lock : ReplyLockTest
unfolding Raw.new encode pack to_le_bytes mode_from_kind_and_perm Raw.consume Raw.ok Raw.error
    with_attr fuse_attr_from_attr lk_out
reply_lock = refl

abbrev expected_bmap : List Bytes
expected_bmap =
    (0x18 ∷ 0x00 ∷ 0x00 ∷ 0x00 ∷ 0x00 ∷ 0x00 ∷ 0x00 ∷ 0x00 ∷ 0xef ∷ 0xbe ∷ 0xad ∷ 0xde ∷ 0x00 ∷ 0x00
      ∷ 0x00 ∷ 0x00 ∷ [])
    ∷ (0x34 ∷ 0x12 ∷ 0x00 ∷ 0x00 ∷ 0x00 ∷ 0x00 ∷ 0x00 ∷ 0x00 ∷ [])
    ∷ []

-- `reply_bmap`.
abbrev ReplyBmapTest : Type 0
ReplyBmapTest = bmap_bmap linux (bmap_new 0xdeadbeef assert_sender) 0x1234 ≡ passes expected_bmap

reply_bmap : ReplyBmapTest
unfolding Raw.new encode pack to_le_bytes mode_from_kind_and_perm Raw.consume Raw.ok Raw.error
    with_attr fuse_attr_from_attr bmap_out
reply_bmap = refl

abbrev expected_xattr_size : List Bytes
expected_xattr_size =
    (0x18 ∷ 0x00 ∷ 0x00 ∷ 0x00 ∷ 0x00 ∷ 0x00 ∷ 0x00 ∷ 0x00 ∷ 0xef ∷ 0xbe ∷ 0xad ∷ 0xde ∷ 0x00 ∷ 0x00
      ∷ 0x00 ∷ 0x00 ∷ [])
    ∷ (0x78 ∷ 0x56 ∷ 0x34 ∷ 0x12 ∷ 0x00 ∷ 0x00 ∷ 0x00 ∷ 0x00 ∷ [])
    ∷ []

-- `reply_xattr_size`.
abbrev ReplyXattrSizeTest : Type 0
ReplyXattrSizeTest =
    xattr_size linux (xattr_new 0xdeadbeef assert_sender) 0x12345678 ≡ passes expected_xattr_size

reply_xattr_size : ReplyXattrSizeTest
unfolding Raw.new encode pack to_le_bytes mode_from_kind_and_perm Raw.consume Raw.ok Raw.error
    with_attr fuse_attr_from_attr xattr_out
reply_xattr_size = refl

abbrev expected_xattr_data : List Bytes
expected_xattr_data =
    (0x14 ∷ 0x00 ∷ 0x00 ∷ 0x00 ∷ 0x00 ∷ 0x00 ∷ 0x00 ∷ 0x00 ∷ 0xef ∷ 0xbe ∷ 0xad ∷ 0xde ∷ 0x00 ∷ 0x00
      ∷ 0x00 ∷ 0x00 ∷ [])
    ∷ (0x11 ∷ 0x22 ∷ 0x33 ∷ 0x44 ∷ [])
    ∷ []

-- `reply_xattr_data`.
abbrev ReplyXattrDataTest : Type 0
ReplyXattrDataTest =
    xattr_data linux (xattr_new 0xdeadbeef assert_sender) (0x11 ∷ 0x22 ∷ 0x33 ∷ 0x44 ∷ [])
    ≡ passes expected_xattr_data

reply_xattr_data : ReplyXattrDataTest
unfolding Raw.new encode pack to_le_bytes mode_from_kind_and_perm Raw.consume Raw.ok Raw.error
    with_attr fuse_attr_from_attr
reply_xattr_data = refl

-- "hello" and "world.rs".
abbrev two_files : Listing
two_files =
    add_entry
      (record {
        ino = 0xaabb;
        offset = 1;
        kind = directory;
        name = 0x68 ∷ 0x65 ∷ 0x6c ∷ 0x6c ∷ 0x6f ∷ [];
      })
      (λ _.
        add_entry
          (record {
            ino = 0xccdd;
            offset = 2;
            kind = regular_file;
            name = 0x77 ∷ 0x6f ∷ 0x72 ∷ 0x6c ∷ 0x64 ∷ 0x2e ∷ 0x72 ∷ 0x73 ∷ [];
          })
          (λ _. finish))

abbrev expected_directory : List Bytes
expected_directory =
    (0x50 ∷ 0x00 ∷ 0x00 ∷ 0x00 ∷ 0x00 ∷ 0x00 ∷ 0x00 ∷ 0x00 ∷ 0xef ∷ 0xbe ∷ 0xad ∷ 0xde ∷ 0x00 ∷ 0x00
      ∷ 0x00 ∷ 0x00 ∷ [])
    ∷ (0xbb ∷ 0xaa ∷ 0x00 ∷ 0x00 ∷ 0x00 ∷ 0x00 ∷ 0x00 ∷ 0x00 ∷ 0x01 ∷ 0x00 ∷ 0x00 ∷ 0x00 ∷ 0x00
        ∷ 0x00 ∷ 0x00 ∷ 0x00 ∷ 0x05 ∷ 0x00 ∷ 0x00 ∷ 0x00 ∷ 0x04 ∷ 0x00 ∷ 0x00 ∷ 0x00 ∷ 0x68 ∷ 0x65
        ∷ 0x6c ∷ 0x6c ∷ 0x6f ∷ 0x00 ∷ 0x00 ∷ 0x00 ∷ 0xdd ∷ 0xcc ∷ 0x00 ∷ 0x00 ∷ 0x00 ∷ 0x00 ∷ 0x00
        ∷ 0x00 ∷ 0x02 ∷ 0x00 ∷ 0x00 ∷ 0x00 ∷ 0x00 ∷ 0x00 ∷ 0x00 ∷ 0x00 ∷ 0x08 ∷ 0x00 ∷ 0x00 ∷ 0x00
        ∷ 0x08 ∷ 0x00 ∷ 0x00 ∷ 0x00 ∷ 0x77 ∷ 0x6f ∷ 0x72 ∷ 0x6c ∷ 0x64 ∷ 0x2e ∷ 0x72 ∷ 0x73 ∷ [])
    ∷ []

-- `reply_directory`.
abbrev ReplyDirectoryTest : Type 0
ReplyDirectoryTest =
    run_listing linux (Directory.new 0xdeadbeef assert_sender 4096) two_files
    ≡ passes expected_directory

reply_directory : ReplyDirectoryTest
unfolding run_listing Directory.new encode pack to_le_bytes mode_from_kind_and_perm Raw.consume add
    Directory.entry_bytes
reply_directory = refl

-- `async_reply`: the sender passes on that there was a message, for which the test waits.
abbrev AsyncReplyTest : Type 0
AsyncReplyTest =
    (m : Message) × ((empty_ok linux (empty_new 0xdeadbeef assert_sender)).sent ≡ m ∷ [])

async_reply : AsyncReplyTest
unfolding Raw.new Raw.consume
async_reply = (_, refl)
