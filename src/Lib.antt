-- ===== src/Lib.antt =====
-- A model of async-fuse, a library for filesystems in user space on Linux, from the bytes that the kernel
-- sends to the bytes that it gets back.
--
-- Session::run reads packets from the channel to the kernel. Each is parsed into a request, whose dispatch
-- is spawned as a task: it checks the flags of the session, calls one method of the filesystem with a reply
-- object, and the reply object sends one message. The kernel interface is little endian, 64 bits wide, at
-- ABI 7.8 (the crate without features).
--
-- Files and the code they model:
--   Prelude, Bytes, Bits     shared names, lists over the native numbers, bytes, single bits
--   Libc                     constants of the crate libc, a parameter; the values of Linux
--   Abi                      fuse-abi/src/lib.rs: C layouts (Layout), structs (Requests, FileRequests,
--                            Replies), operation codes (Opcode), flags (Consts); the structs that differ
--                            on macOS (Macos, MacosRequests)
--   Abi.Features             fuse-abi/src/lib.rs and Cargo.toml under every choice of cargo features and for
--                            both systems: the minor version (Version), flags (Flags), operation and
--                            notification codes (Codes), all structs field by field (Attributes, Files,
--                            Messages, Structs), their layouts (Layouts) and how the structs of Abi are
--                            those of the build with no feature (Agreement)
--   Ll.Argument              src/ll/argument.rs, ArgumentIterator
--   Ll.Operation, Ll.Request src/ll/request.rs, Operation::parse and Request::try_from; Ll.Wire describes
--                            the packets that the kernel sends
--   Ll.MacosOperation,       src/ll/request.rs on macOS: the operations and their parsing
--   Ll.MacosRequest
--   Ll.Display               src/ll/request.rs, the Display impls; a parameter quotes names
--   Channel                  src/channel.rs, the sender: a Message is one call of writev; Channel.Mount has
--                            with_fuse_args, Channel::new, drop and unmount, over a record System of what
--                            the foreign calls return
--   FileAttr, Filesystem     src/lib.rs, FileAttr and the trait: a Call is a method with its arguments,
--                            Filesystem.Defaults are the default methods
--   Reply.Raw, .Outs,        src/reply.rs: ReplyRaw; the structs that replies fill in; the typed replies, each
--   .Typed, .Kinds,          with its methods; their uses as data; ReplyDirectory; the attributes
--   .Directory, .Attr
--   Reply.Macos              src/reply.rs on macOS: attributes with the time of creation, and ReplyXTimes
--   Request                  src/request.rs: Request::new and reply (Task), dispatch up to its await
--                            (Begin) and behind it (Resume)
--   Request.Macos            src/request.rs on macOS: the arguments, operations and methods that only it has
--   Session                  src/session.rs: the flags; run over the results of receive (Loop) and with
--                            its buffer (Buffer); the loop and its tasks in any order (Server), the steps
--                            they have left (Server.Progress) and what the kernel sees of them
--                            (Server.Protocol); the references to a session and the end of its mount
--                            (Life, Life.Order, Life.Ending); Session::new, mount, spawn_mount and the background
--                            session (Start)
--   Examples.Hello           examples/hello.rs; examples/null.rs has the default methods; Hello.Client is
--                            a reader that asks for a directory page by page
--   Examples.Serve           both filesystems behind parsing and dispatch, a packet after the other: Null
--                            for all requests, Conversation from init to the content of the file
--
-- State is passed explicitly: a method returns the new state, and an Outcome, which has the messages sent
-- and whether the call panicked. A method that takes a reply object by value ends its life, so `consume`
-- is a call of send and then drop. What a filesystem does with a reply object is data (Use, Listing), so
-- theorems over all uses are theorems over all filesystems. A dispatch is a Task between its halves.
--
-- Bounds: numbers are natural numbers, and each place where the code truncates or negates has its modulus
-- written out; i32 and i64 are bit patterns. Fuel stands in three places: the kernel's reading of a
-- directory buffer, where one step for each entry is enough; the reader of the hello directory, where one
-- page for each entry and the empty page at the end are; and the digits of a number, where 64 are enough
-- for 64 bits in any base.
--
-- Taken for granted: each half of a dispatch is one step, and the relaxed atomics are read and written in
-- one order; a vector has the capacity that it was created with; tuples of two structs are laid out in
-- order; the kernel never writes more bytes than the buffer has room for; a method has used or dropped its
-- reply object when it ends, but for Session.Life, where a reply may be used at any time after its dispatch; a method that panics drops its reply object, and init, destroy and forget do
-- not panic; the executor runs a spawned task until it ends, so what happens when it is shut down is left
-- out; addresses and alignment play no role.
--
-- The modules with Macos in their names hold what differs there; what they do not have is the same. Tests of
-- the crate stand in the modules called Tests as propositions over the data of the test.
--
-- Not modelled: the declarations of foreign functions (fuse-sys); log messages and Debug impls; the session
-- around the dispatch of macOS, whose loop is the same. The main crate builds with no feature of fuse-abi
-- only, so dispatch has no other configurations than the two systems.
pub mod Abi
pub mod Bits
pub mod Bytes
pub mod Channel
pub mod Examples
pub mod FileAttr
pub mod Filesystem
pub mod Libc
pub mod Ll
pub mod Prelude
pub mod Reply
pub mod Request
pub mod Session
