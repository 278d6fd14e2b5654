-- ===== src/Ll/Display.antt =====
-- How requests and their errors are written to the log (the `Display` impls of src/ll/request.rs). A
-- text is its ASCII codes.
pub mod Laws
use Prim.Native.Char.{code}
use Prim.Native.String.{String}
use async_fuse_rs.Prelude.{
  ℕ, zero, suc, ◌+◌, ◌-◌, ◌/◌, ◌%◌, ltb, if◌then◌else◌, List, [], ◌∷◌, ◌++◌, length, replicate,
}
use async_fuse_rs.Bytes.{Bytes}
use async_fuse_rs.Abi.Layout.{size_of}
use async_fuse_rs.Abi.FileRequests.{in_header_repr}
use async_fuse_rs.Ll.Operation.{Operation}
use async_fuse_rs.Ll.Request.{
  Request, RequestError, short_read_header, unknown_operation, short_read, insufficient_data,
}

abbrev pub ascii : String → Bytes
ascii String.[] = []
ascii (String.◌∷◌ c s) = code c ∷ ascii s

-- The digits 0 to 9 and a to f.
abbrev pub digit : ℕ → ℕ
digit d = if ltb d 10 then 48 + d else 87 + d

-- The digits of a number in a base, the highest first; at most one more than `fuel`.
unfoldable pub digits : ℕ → ℕ → ℕ → Bytes
digits zero base n = digit (n % base) ∷ []
digits (suc fuel) base n =
    let front = digits fuel base (n / base) in
    if ltb n base then digit n ∷ [] else front ++ digit (n % base) ∷ []

-- A text that is filled up at the left.
abbrev pub pad : ℕ → ℕ → Bytes → Bytes
pad width filler text = replicate (width - length text) filler ++ text

-- `{}`, `{:#x}`, `{:#05o}` and `{:#018x}` of numbers of at most 64 bits.
abbrev pub decimal : ℕ → Bytes
decimal n = digits 63 10 n

abbrev pub hex : ℕ → Bytes
hex n = ascii "0x" ++ digits 63 16 n

abbrev pub octal : ℕ → Bytes
octal n = ascii "0o" ++ pad 3 48 (digits 63 8 n)

abbrev pub hex_16 : ℕ → Bytes
hex_16 n = ascii "0x" ++ pad 16 48 (digits 63 16 n)

-- `Display` of an error.
unfoldable pub display_error : RequestError → Bytes
display_error (short_read_header len) =
    ascii "Short read of FUSE request header ("
    ++ decimal len
    ++ ascii " < "
    ++ decimal (size_of in_header_repr)
    ++ ascii ")"
display_error (unknown_operation opcode) =
    ascii "Unknown FUSE opcode (" ++ decimal opcode ++ ascii ")"
display_error (short_read len total) =
    ascii "Short read of FUSE request (" ++ decimal len ++ ascii " < " ++ decimal total ++ ascii ")"
display_error insufficient_data = ascii "Insufficient argument data"

-- `quoted` is the standard library's `{:?}` of a name.
module _ (quoted : Bytes → Bytes) where
  -- `Display` of an operation.
  unfoldable pub display_operation : Operation → Bytes
  display_operation (Operation.lookup name) = ascii "LOOKUP name " ++ quoted name
  display_operation (Operation.forget arg) = ascii "FORGET nlookup " ++ decimal arg.nlookup
  display_operation Operation.get_attr = ascii "GETATTR"
  display_operation (Operation.set_attr arg) = ascii "SETATTR valid " ++ hex arg.valid
  display_operation Operation.read_link = ascii "READLINK"
  display_operation (Operation.sym_link name target) =
      ascii "SYMLINK name " ++ quoted name ++ ascii ", link " ++ quoted target
  display_operation (Operation.mk_nod arg name) =
      ascii "MKNOD name "
      ++ quoted name
      ++ ascii ", mode "
      ++ octal arg.mode
      ++ ascii ", rdev "
      ++ decimal arg.rdev
  display_operation (Operation.mk_dir arg name) =
      ascii "MKDIR name " ++ quoted name ++ ascii ", mode " ++ octal arg.mode
  display_operation (Operation.unlink name) = ascii "UNLINK name " ++ quoted name
  display_operation (Operation.rm_dir name) = ascii "RMDIR name " ++ quoted name
  display_operation (Operation.rename arg name newname) =
      ascii "RENAME name "
      ++ quoted name
      ++ ascii ", newdir "
      ++ hex_16 arg.newdir
      ++ ascii ", newname "
      ++ quoted newname
  display_operation (Operation.link arg name) =
      ascii "LINK name " ++ quoted name ++ ascii ", oldnodeid " ++ hex_16 arg.oldnodeid
  display_operation (Operation.open_file arg) = ascii "OPEN flags " ++ hex arg.flags
  display_operation (Operation.read arg) =
      ascii "READ fh "
      ++ decimal arg.fh
      ++ ascii ", offset "
      ++ decimal arg.offset
      ++ ascii ", size "
      ++ decimal arg.size
  display_operation (Operation.write arg bytes) =
      ascii "WRITE fh "
      ++ decimal arg.fh
      ++ ascii ", offset "
      ++ decimal arg.offset
      ++ ascii ", size "
      ++ decimal arg.size
      ++ ascii ", write flags "
      ++ hex arg.write_flags
  display_operation Operation.stat_fs = ascii "STATFS"
  display_operation (Operation.release arg) =
      ascii "RELEASE fh "
      ++ decimal arg.fh
      ++ ascii ", flags "
      ++ hex arg.flags
      ++ ascii ", release flags "
      ++ hex arg.release_flags
      ++ ascii ", lock owner "
      ++ decimal arg.lock_owner
  display_operation (Operation.f_sync arg) =
      ascii "FSYNC fh " ++ decimal arg.fh ++ ascii ", fsync flags " ++ hex arg.fsync_flags
  display_operation (Operation.set_x_attr arg name value) =
      ascii "SETXATTR name "
      ++ quoted name
      ++ ascii ", size "
      ++ decimal arg.size
      ++ ascii ", flags "
      ++ hex arg.flags
  display_operation (Operation.get_x_attr arg name) =
      ascii "GETXATTR name " ++ quoted name ++ ascii ", size " ++ decimal arg.size
  display_operation (Operation.list_x_attr arg) = ascii "LISTXATTR size " ++ decimal arg.size
  display_operation (Operation.remove_x_attr name) = ascii "REMOVEXATTR name " ++ quoted name
  display_operation (Operation.flush arg) =
      ascii "FLUSH fh " ++ decimal arg.fh ++ ascii ", lock owner " ++ decimal arg.lock_owner
  display_operation (Operation.init arg) =
      ascii "INIT kernel ABI "
      ++ decimal arg.major
      ++ ascii "."
      ++ decimal arg.minor
      ++ ascii ", flags "
      ++ hex arg.flags
      ++ ascii ", max readahead "
      ++ decimal arg.max_readahead
  display_operation (Operation.open_dir arg) = ascii "OPENDIR flags " ++ hex arg.flags
  display_operation (Operation.read_dir arg) =
      ascii "READDIR fh "
      ++ decimal arg.fh
      ++ ascii ", offset "
      ++ decimal arg.offset
      ++ ascii ", size "
      ++ decimal arg.size
  display_operation (Operation.release_dir arg) =
      ascii "RELEASEDIR fh "
      ++ decimal arg.fh
      ++ ascii ", flags "
      ++ hex arg.flags
      ++ ascii ", release flags "
      ++ hex arg.release_flags
      ++ ascii ", lock owner "
      ++ decimal arg.lock_owner
  display_operation (Operation.f_sync_dir arg) =
      ascii "FSYNCDIR fh " ++ decimal arg.fh ++ ascii ", fsync flags " ++ hex arg.fsync_flags
  display_operation (Operation.get_lk arg) =
      ascii "GETLK fh " ++ decimal arg.fh ++ ascii ", lock owner " ++ decimal arg.owner
  display_operation (Operation.set_lk arg) =
      ascii "SETLK fh " ++ decimal arg.fh ++ ascii ", lock owner " ++ decimal arg.owner
  display_operation (Operation.set_lk_w arg) =
      ascii "SETLKW fh " ++ decimal arg.fh ++ ascii ", lock owner " ++ decimal arg.owner
  display_operation (Operation.access arg) = ascii "ACCESS mask " ++ octal arg.mask
  display_operation (Operation.create arg name) =
      ascii "CREATE name "
      ++ quoted name
      ++ ascii ", mode "
      ++ octal arg.mode
      ++ ascii ", flags "
      ++ hex arg.flags
  display_operation (Operation.interrupt arg) = ascii "INTERRUPT unique " ++ decimal arg.unique
  display_operation (Operation.b_map arg) =
      ascii "BMAP blocksize " ++ decimal arg.blocksize ++ ascii ", ids " ++ decimal arg.block
  display_operation Operation.destroy = ascii "DESTROY"

  -- `Display` of a request.
  unfoldable pub display_request : Request → Bytes
  display_request r =
      ascii "FUSE("
      ++ pad 3 32 (decimal r.header.unique)
      ++ ascii ") ino "
      ++ hex_16 r.header.nodeid
      ++ ascii ": "
      ++ display_operation r.operation
