-- ===== src/Examples/Tests.antt =====
-- The hello filesystem at concrete data.
use async_fuse_rs.Prelude.{
  List, some, ◌++◌, ℕ, ◌≤◌, ◌<◌, ◌≡◌, refl, false, [], ◌∷◌, map, take, drop, arith,
}
use async_fuse_rs.Libc.{linux}
use async_fuse_rs.Channel.{ChannelSender, Message}
use async_fuse_rs.Bytes.{to_le_bytes}
use async_fuse_rs.Abi.Layout.{pack, encode}
use async_fuse_rs.Abi.Opcode.{code}
use async_fuse_rs.Abi.FileRequests.{FuseInHeader, FuseInitIn, FuseReadIn}
use async_fuse_rs.Abi.Replies.{FuseAttr, init_out_repr, entry_out_repr}
use async_fuse_rs.Ll.Operation
use async_fuse_rs.Ll.Wire.{args_before}
use async_fuse_rs.Ll.Request.RoundTrip.{packet}
use async_fuse_rs.Session
use async_fuse_rs.Session.{Session}
use async_fuse_rs.Reply.Kinds.Exactly.{IsAnswered}
use async_fuse_rs.Reply.Kinds.Reading.{Tells, Reads, ReadsBytes, entry_read}
use async_fuse_rs.Examples.Serve.{null_fs, hello_fs, converse, Sent}
use async_fuse_rs.Examples.Serve.Null.{null_answers}
use async_fuse_rs.Examples.Serve.Conversation.{asking, greeted, hello_conversation}
use async_fuse_rs.Filesystem.{lookup, read}
use async_fuse_rs.Reply.Kinds.{answer, entry, bytes}
use async_fuse_rs.Reply.Raw.Once.{raw_message}
use async_fuse_rs.Reply.Directory
use async_fuse_rs.Reply.Directory.{run_listing}
use async_fuse_rs.Reply.Directory.Filling.{all_bytes}
use async_fuse_rs.Reply.Directory.Reader.{seen}
use async_fuse_rs.Examples.Hello.{
  ttl, hello_txt, hello_txt_attr, hello_txt_content, entries, hello_use, hello_listing,
}
use async_fuse_rs.Examples.Hello.Pages.{hello_listing-page}
use async_fuse_rs.Examples.Hello.Client.{read_all, read_all_lem}

abbrev sender : ChannelSender
sender = record { fd = 5 }

lookup_found : hello_use linux (lookup 1 hello_txt) ≡ answer (entry ttl hello_txt_attr 0)
unfolding hello_use
lookup_found = refl

read_end : hello_use linux (read 2 0 11 4096) ≡ answer (bytes (0x21 ∷ 0x0a ∷ []))
unfolding hello_use
read_end = refl

hello_listing-page_example :
    (n : ℕ) × ((run_listing linux (Directory.new 7 sender 80) (hello_listing linux 1 1) ≡ record {
      sent = raw_message 5 7 0 (all_bytes linux (take n (drop 1 entries)) ∷ []) ∷ [];
      panicked = false;
    })
      × (40 ≤ 80 → 1 < 3 → 1 ≤ n))
hello_listing-page_example = hello_listing-page linux 7 sender 80 1

read_all_lem_example : read_all 5 7 sender 64 0 ≡ map seen entries
read_all_lem_example = read_all_lem 7 sender 64 5 (omega arith) (omega arith) (omega arith)

-- The headers of an init, a lookup in the root and a read of inode 2.
abbrev header_of : ℕ → ℕ → ℕ → ℕ → FuseInHeader
header_of len opcode unique nodeid = record {
  len = len;
  opcode = opcode;
  unique = unique;
  nodeid = nodeid;
  uid = 0;
  gid = 0;
  pid = 1;
  padding = 0;
}

abbrev greeting : FuseInitIn
greeting = record { major = 7; minor = 31; max_readahead = 4096; flags = 3 }

abbrev whole_file : FuseReadIn
whole_file = record { fh = 0; offset = 0; size = 4096 }

greeting-Sent : Sent (asking (header_of 56 26 1 0) (Operation.init greeting))
unfolding code packet encode pack to_le_bytes args_before
greeting-Sent = record {
  wire = record { header_fits = omega arith; opcode_named = refl; arguments_fit = omega arith };
  whole = omega arith;
}

looking-Sent : Sent (asking (header_of 50 1 2 1) (Operation.lookup hello_txt))
unfolding code packet encode pack to_le_bytes args_before
looking-Sent = record {
  wire = record { header_fits = omega arith; opcode_named = refl; arguments_fit = omega arith };
  whole = omega arith;
}

reading-Sent : Sent (asking (header_of 64 15 3 2) (Operation.read whole_file))
unfolding code packet encode pack to_le_bytes args_before
reading-Sent = record {
  wire = record { header_fits = omega arith; opcode_named = refl; arguments_fit = omega arith };
  whole = omega arith;
}

null_answers_example :
    (last : Session) × (sent : List Message) × (converse null_fs linux sender
        (greeted greeting)
        (packet (asking (header_of 50 1 2 1) (Operation.lookup hello_txt)) [] ∷ [])
      ≡ some (last, sent))
    × IsAnswered sender 2 38 sent
null_answers_example =
    null_answers linux sender (greeted greeting)
      (asking (header_of 50 1 2 1) (Operation.lookup hello_txt)) looking-Sent (λ x. x)

hello_conversation_example :
    (f : FuseAttr) × Tells linux hello_txt_attr f
    × (s1 s2 s3 : List Message) × (converse hello_fs linux sender Session.new (
          packet (asking (header_of 56 26 1 0) (Operation.init greeting)) []
          ∷ packet (asking (header_of 50 1 2 1) (Operation.lookup hello_txt)) []
          ∷ packet (asking (header_of 64 15 3 2) (Operation.read whole_file)) []
          ∷ [])
        ≡ some (greeted greeting, s1 ++ (s2 ++ (s3 ++ []))))
    × Reads 1 sender init_out_repr
        (record {
          major = 7;
          minor = 8;
          max_readahead = 4096;
          flags = 1;
          unused = 0;
          max_write = 16777216;
        })
        s1
    × Reads 2 sender entry_out_repr (entry_read ttl hello_txt_attr f 0) s2
    × ReadsBytes 3 sender hello_txt_content s3
hello_conversation_example =
    hello_conversation sender (header_of 56 26 1 0) (header_of 50 1 2 1) (header_of 64 15 3 2)
      greeting whole_file refl greeting-Sent looking-Sent reading-Sent refl refl (omega arith)
