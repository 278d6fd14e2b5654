-- ===== src/Examples/Serve/Conversation.antt =====
-- A conversation with the hello filesystem, from bytes to bytes: the kernel greets it, looks a file up, and
-- reads the inode that it was told (examples/hello.rs, src/session.rs, src/request.rs, src/reply.rs).
use async_fuse_rs.Prelude.{
  ap, ◌%◌, ℕ, ◌≤◌, ◌<◌, le→ltb, ◌≡◌, refl, arith, true, false, some, List, [], ◌∷◌, ◌++◌, drop,
  length-drop,
}
use async_fuse_rs.Bytes.{Bytes, u64_mod}
use async_fuse_rs.Bits.{bit_and_flag}
use async_fuse_rs.Libc.{linux}
use async_fuse_rs.Channel.{ChannelSender, Message}
use async_fuse_rs.Abi.Layout.{Fits}
use async_fuse_rs.Abi.FileRequests.{FuseInHeader, FuseInitIn, FuseReadIn, init_in_repr}
use async_fuse_rs.Abi.Replies.{FuseAttr, FuseInitOut, init_out_repr, entry_out_repr}
use async_fuse_rs.Ll
use async_fuse_rs.Ll.Operation.{Operation}
use async_fuse_rs.Ll.Request.RoundTrip.{packet}
use async_fuse_rs.Reply.Raw
use async_fuse_rs.Reply.Raw.{Outcome, new, as_bytes}
use async_fuse_rs.Reply.Attr.{mode_from_kind_and_perm}
use async_fuse_rs.Reply.Kinds.{answer, entry, bytes, run_use, run_answer}
use async_fuse_rs.Reply.Kinds.Reading.{
  Times, IsFileAttr, Tells, Reads, entry_read, attributes-Reads, ReadsBytes, consume-Reads,
  consume-ReadsBytes,
}
use async_fuse_rs.Session
use async_fuse_rs.Session.{Session}
use async_fuse_rs.Request.Task.{reply}
use async_fuse_rs.Request.Begin.{
  begin, begin_operation, begin_init, begin_guarded, call, is_unsupported,
}
use async_fuse_rs.Request.Resume.{init_out, resume, resume_init}
use async_fuse_rs.Filesystem.Defaults.{default_init}
use async_fuse_rs.Examples.Hello.{ttl, hello_txt, hello_txt_attr, hello_txt_content, hello_use}
use async_fuse_rs.Examples.Serve.{hello_fs, dispatch, converse, Sent, request_on, converse-packet}

abbrev pub asking : FuseInHeader → Operation → Ll.Request.Request
asking h op = record { header = h; operation = op }

-- The session after a greeting.
abbrev pub greeted : FuseInitIn → Session
greeted ini = record {
  proto_major = ini.major;
  proto_minor = ini.minor;
  initialized = true;
  destroyed = false;
}

abbrev pub txt_times : Times hello_txt_attr
txt_times = record {
  atime = record { secs = 0; nanos = 0 };
  mtime = record { secs = 0; nanos = 0 };
  ctime = record { secs = 0; nanos = 0 };
  atime_same = refl;
  mtime_same = refl;
  ctime_same = refl;
}

txt-IsFileAttr : IsFileAttr linux hello_txt_attr txt_times
unfolding mode_from_kind_and_perm
txt-IsFileAttr = record {
  wide = omega arith;
  times = omega arith;
  mode = omega arith;
  narrow = omega arith;
}

-- The answer to a greeting: ABI 7.8, the kernel's readahead, of its flags only the lowest, asynchronous
-- reads, and writes of at most 16 MiB.
abbrev pub greeting : FuseInitIn → FuseInitOut
greeting ini = record {
  major = 7;
  minor = 8;
  max_readahead = ini.max_readahead;
  flags = ini.flags % 2;
  unused = 0;
  max_write = 16777216;
}

init_out-greeting : (ini : FuseInitIn) → init_out ini ≡ greeting ini
unfolding init_out
init_out-greeting ini =
    ap
      (λ (n : ℕ). record {
        major = 7;
        minor = 8;
        max_readahead = ini.max_readahead;
        flags = n;
        unused = 0;
        max_write = 16777216;
      })
      (omega (arith, bit_and_flag 0 ini.flags))

module _ (ch : ChannelSender) (h : FuseInHeader) where
  greets :
      (ini : FuseInitIn)
      → is_unsupported ini ≡ false
      → dispatch hello_fs linux Session.new (request_on ch (asking h (Operation.init ini)))
        ≡ (greeted ini, Raw.ok linux init_out_repr (new h.unique ch) (init_out ini))
  unfolding dispatch begin begin_operation begin_init resume resume_init default_init reply
      Ll.Request.unique
  greets ini supported = rw (supported, begin_init) refl

  finds :
      (ini : FuseInitIn)
      → h.nodeid ≡ 1
      → dispatch hello_fs linux
          (greeted ini)
          (request_on ch (asking h (Operation.lookup hello_txt)))
        ≡ (greeted ini, run_use linux (new h.unique ch) (answer (entry ttl hello_txt_attr 0)))
  unfolding dispatch begin begin_operation begin_guarded call resume reply Ll.Request.unique
      Ll.Request.nodeid hello_use
  finds ini root = rw root refl

  reads :
      (ini : FuseInitIn) (arg : FuseReadIn)
      → h.nodeid ≡ 2
      → arg.offset ≤ 13
      → dispatch hello_fs linux (greeted ini) (request_on ch (asking h (Operation.read arg))) ≡ (
        greeted ini,
        run_use linux (new h.unique ch) (answer (bytes (drop arg.offset hello_txt_content))),
      )
  unfolding dispatch begin begin_operation begin_guarded call resume reply Ll.Request.unique
      Ll.Request.nodeid hello_use
  reads ini arg file within = rw (file, le→ltb 13 arg.offset within, hello_use) refl

  -- The file's bytes from an offset on, as the kernel reads them.
  read-ReadsBytes :
      (offset : ℕ)
      → h.unique < u64_mod
      → ReadsBytes h.unique ch
          (drop offset hello_txt_content)
          (run_use linux (new h.unique ch) (answer (bytes (drop offset hello_txt_content)))).sent
  unfolding run_use run_answer
  read-ReadsBytes offset hu =
      consume-ReadsBytes linux h.unique ch (drop offset hello_txt_content) hu
        (omega (arith, length-drop offset hello_txt_content))

  greeting-Reads :
      (ini : FuseInitIn)
      → h.unique < u64_mod
      → Fits init_in_repr ini
      → Reads h.unique ch init_out_repr
          (greeting ini)
          (Raw.ok linux init_out_repr (new h.unique ch) (init_out ini)).sent
  unfolding Raw.ok as_bytes
  greeting-Reads ini hu fits =
      rw (init_out-greeting ini) (
        consume-Reads linux h.unique ch init_out_repr (greeting ini) hu (omega arith) (omega arith))

  id_bound : (op : Operation) → Sent (asking h op) → h.unique < u64_mod
  id_bound op sent = omega (arith, sent.wire.header_fits)

-- A new session that gets the packets of an init of a supported version, of a lookup of "hello.txt" in the
-- root, and of a read of that file's inode at an offset within its size, is initialized with the
-- kernel's version, and sends three messages: in the first the kernel reads version 7.8, its own readahead,
-- its flag of asynchronous reads and no other, and the bound of 16 MiB on writes; in the second
-- the entry, whose struct tells the file's attributes; and in the third the whole content from the offset on,
-- whatever size it asked for.
pub hello_conversation :
    (ch : ChannelSender) (h1 h2 h3 : FuseInHeader) (ini : FuseInitIn) (arg : FuseReadIn)
    → is_unsupported ini ≡ false
    → Sent (asking h1 (Operation.init ini))
    → Sent (asking h2 (Operation.lookup hello_txt))
    → Sent (asking h3 (Operation.read arg))
    → h2.nodeid ≡ 1
    → h3.nodeid ≡ hello_txt_attr.ino
    → arg.offset ≤ hello_txt_attr.size
    → (f : FuseAttr) × Tells linux hello_txt_attr f
      × (s1 s2 s3 : List Message) × (converse hello_fs linux ch Session.new (
            packet (asking h1 (Operation.init ini)) []
            ∷ packet (asking h2 (Operation.lookup hello_txt)) []
            ∷ packet (asking h3 (Operation.read arg)) []
            ∷ [])
          ≡ some (greeted ini, s1 ++ (s2 ++ (s3 ++ []))))
      × Reads h1.unique ch init_out_repr (greeting ini) s1
      × Reads h2.unique ch entry_out_repr (entry_read ttl hello_txt_attr f 0) s2
      × ReadsBytes h3.unique ch (drop arg.offset hello_txt_content) s3
unfolding converse
hello_conversation ch h1 h2 h3 ini arg supported p1 p2 p3 root file within =
    let look : Bytes = packet (asking h2 (Operation.lookup hello_txt)) [] in
    let fetch : Bytes = packet (asking h3 (Operation.read arg)) [] in
    let u2 : h2.unique < u64_mod = id_bound ch h2 (Operation.lookup hello_txt) p2 in
    let (f, told, _, entry_told, _) =
      attributes-Reads linux h2.unique ch ttl hello_txt_attr txt_times 0 0 0 u2 (omega arith)
        txt-IsFileAttr (omega arith) in
    (
      f,
      told,
      _,
      _,
      _,
      converse-packet hello_fs linux ch _ (greeted ini) _ _ _ (look ∷ fetch ∷ []) _ p1
          (greets ch h1 ini supported)
          (converse-packet hello_fs linux ch (greeted ini) (greeted ini) _ _ _ (fetch ∷ []) _ p2
            (finds ch h2 ini root)
            (converse-packet hello_fs linux ch (greeted ini) (greeted ini) _ _ _ [] _ p3
              (reads ch h3 ini arg file within) refl)),
      greeting-Reads ch h1 ini (id_bound ch h1 (Operation.init ini) p1) p1.wire.arguments_fit,
      entry_told,
      read-ReadsBytes ch h3 arg.offset (id_bound ch h3 (Operation.read arg) p3),
    )
