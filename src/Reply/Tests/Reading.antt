-- ===== src/Reply/Tests/Reading.antt =====
-- What the kernel reads from replies, at the data of the tests of src/reply.rs.
use async_fuse_rs.Prelude.{arith, refl}
use async_fuse_rs.Libc.{linux}
use async_fuse_rs.Abi.Replies.{FuseAttr, entry_out_repr, attr_out_repr, open_out_repr}
use async_fuse_rs.Reply.Raw.{new}
use async_fuse_rs.Reply.Attr.{mode_from_kind_and_perm}
use async_fuse_rs.Reply.Kinds.{entry, attr, opened, created, answer, run_use, created_repr}
use async_fuse_rs.Reply.Kinds.Reading.{
  Times, IsFileAttr, Tells, Reads, entry_read, attributes-Reads,
}
use async_fuse_rs.Reply.Kinds.Plain.{plain-UseTells}
use async_fuse_rs.Reply.Tests.Serialize.{assert_sender}
use async_fuse_rs.Reply.Tests.Attributes.{test_ttl, test_attr}

abbrev pub test_times : Times test_attr
test_times = record {
  atime = record { secs = 0x1234; nanos = 0x5678 };
  mtime = record { secs = 0x1234; nanos = 0x5678 };
  ctime = record { secs = 0x1234; nanos = 0x5678 };
  atime_same = refl;
  mtime_same = refl;
  ctime_same = refl;
}

pub test_attr-IsFileAttr : IsFileAttr linux test_attr test_times
unfolding mode_from_kind_and_perm
test_attr-IsFileAttr = record {
  wide = omega arith;
  times = omega arith;
  mode = omega arith;
  narrow = omega arith;
}

attributes-Reads_example :
    (f : FuseAttr) × Tells linux test_attr f
    × Reads 0xdeadbeef assert_sender attr_out_repr
        (record {
          attr_valid = test_ttl.secs;
          attr_valid_nsec = test_ttl.nanos;
          dummy = 0;
          attr = f;
        })
        (run_use linux (new 0xdeadbeef assert_sender) (answer (attr test_ttl test_attr))).sent
    × Reads 0xdeadbeef assert_sender entry_out_repr
        (entry_read test_ttl test_attr f 0xaa)
        (run_use linux (new 0xdeadbeef assert_sender) (answer (entry test_ttl test_attr 0xaa))).sent
    × Reads 0xdeadbeef assert_sender created_repr
        (entry_read test_ttl test_attr f 0xaa, record { fh = 0xbb; open_flags = 0xcc; padding = 0 })
        (run_use linux
          (new 0xdeadbeef assert_sender)
          (answer (created test_ttl test_attr 0xaa 0xbb 0xcc))).sent
attributes-Reads_example =
    attributes-Reads linux 0xdeadbeef assert_sender test_ttl test_attr test_times 0xaa 0xbb 0xcc
      (omega arith) (omega arith) test_attr-IsFileAttr (omega arith)

plain-UseTells_example :
    Reads 0xdeadbeef assert_sender open_out_repr
      (record { fh = 0x1122; open_flags = 0x33; padding = 0 })
      (run_use linux (new 0xdeadbeef assert_sender) (answer (opened 0x1122 0x33))).sent
plain-UseTells_example =
    plain-UseTells linux 0xdeadbeef assert_sender (answer (opened 0x1122 0x33)) (omega arith)
      (omega arith)
