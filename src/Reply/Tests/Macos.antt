-- ===== src/Reply/Tests/Macos.antt =====
-- What the kernel of macOS reads from replies with the attributes of the crate's tests.
use async_fuse_rs.Prelude.{refl, arith}
use async_fuse_rs.Libc.{linux}
use async_fuse_rs.FileAttr.{Duration, after_epoch}
use async_fuse_rs.Abi.Macos.{
  MacosAttr, macos_entry_out_repr, macos_attr_out_repr, macos_created_repr, getxtimes_out_repr,
}
use async_fuse_rs.Reply.Raw.{new}
use async_fuse_rs.Reply.Kinds.Reading.{Reads}
use async_fuse_rs.Reply.Macos.{
  macos_entry_entry, macos_attr_attr, macos_create_created, xtimes_xtimes,
}
use async_fuse_rs.Reply.Macos.Reading.{MacosTells, macos_entry_read, macos-Reads}
use async_fuse_rs.Reply.Tests.Serialize.{assert_sender}
use async_fuse_rs.Reply.Tests.Attributes.{test_ttl, test_attr}
use async_fuse_rs.Reply.Tests.Reading.{test_times, test_attr-IsFileAttr}

abbrev creation : Duration
creation = record { secs = 0x1234; nanos = 0x5678 }

macos-Reads_example :
    (f : MacosAttr) × MacosTells linux test_attr f
    × Reads 0xdeadbeef assert_sender macos_attr_out_repr
        (record {
          attr_valid = test_ttl.secs;
          attr_valid_nsec = test_ttl.nanos;
          dummy = 0;
          attr = f;
        })
        (macos_attr_attr linux
          (record { reply = new 0xdeadbeef assert_sender })
          test_ttl
          test_attr).sent
    × Reads 0xdeadbeef assert_sender macos_entry_out_repr
        (macos_entry_read test_ttl test_attr f 0xaa)
        (macos_entry_entry linux
          (record { reply = new 0xdeadbeef assert_sender })
          test_ttl
          test_attr
          0xaa).sent
    × Reads 0xdeadbeef assert_sender macos_created_repr
        (
          macos_entry_read test_ttl test_attr f 0xaa,
          record { fh = 0xbb; open_flags = 0xcc; padding = 0 },
        )
        (macos_create_created linux
          (record { reply = new 0xdeadbeef assert_sender })
          test_ttl
          test_attr
          0xaa
          0xbb
          0xcc).sent
    × Reads 0xdeadbeef assert_sender getxtimes_out_repr
        (record {
          bkuptime = creation.secs;
          crtime = creation.secs;
          bkuptimensec = creation.nanos;
          crtimensec = creation.nanos;
        })
        (xtimes_xtimes linux
          (record { reply = new 0xdeadbeef assert_sender })
          (after_epoch creation)
          test_attr.crtime).sent
macos-Reads_example =
    macos-Reads linux 0xdeadbeef assert_sender test_ttl test_attr test_times creation creation 0xaa
      0xbb 0xcc (omega arith) (omega arith) test_attr-IsFileAttr (refl, omega arith, omega arith)
      (omega arith) (omega arith)
