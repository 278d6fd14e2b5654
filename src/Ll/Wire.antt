-- ===== src/Ll/Wire.antt =====
-- An independent description of what the kernel sends, to which parsing in src/ll/request.rs is the
-- inverse: each operation has one code, and its arguments follow one another in the packet.
use async_fuse_rs.Prelude.{◌++◌, [], ◌∷◌}
use async_fuse_rs.Bytes.{Bytes}
use async_fuse_rs.Abi.Layout.{encode, Fits}
use async_fuse_rs.Abi.Opcode.{Opcode}
use async_fuse_rs.Abi.Requests.{
  forget_in_repr, setattr_in_repr, mknod_in_repr, mkdir_in_repr, rename_in_repr, link_in_repr,
  open_in_repr, release_in_repr, flush_in_repr, create_in_repr,
}
use async_fuse_rs.Abi.FileRequests.{
  read_in_repr, write_in_repr, fsync_in_repr, setxattr_in_repr, getxattr_in_repr, init_in_repr,
  lk_in_repr, access_in_repr, interrupt_in_repr, bmap_in_repr,
}
use async_fuse_rs.Ll.Argument.Laws.{NoZero}
use async_fuse_rs.Ll.Operation.{Operation}

-- A string on the wire.
abbrev pub c_str : Bytes → Bytes
c_str name = name ++ 0 ∷ []

abbrev pub opcode_of : Operation → Opcode
opcode_of (Operation.lookup _) = Opcode.lookup
opcode_of (Operation.forget _) = Opcode.forget
opcode_of Operation.get_attr = Opcode.getattr
opcode_of (Operation.set_attr _) = Opcode.setattr
opcode_of Operation.read_link = Opcode.readlink
opcode_of (Operation.sym_link _ _) = Opcode.symlink
opcode_of (Operation.mk_nod _ _) = Opcode.mknod
opcode_of (Operation.mk_dir _ _) = Opcode.mkdir
opcode_of (Operation.unlink _) = Opcode.unlink
opcode_of (Operation.rm_dir _) = Opcode.rmdir
opcode_of (Operation.rename _ _ _) = Opcode.rename
opcode_of (Operation.link _ _) = Opcode.link
opcode_of (Operation.open_file _) = Opcode.open_file
opcode_of (Operation.read _) = Opcode.read
opcode_of (Operation.write _ _) = Opcode.write
opcode_of Operation.stat_fs = Opcode.statfs
opcode_of (Operation.release _) = Opcode.release
opcode_of (Operation.f_sync _) = Opcode.fsync
opcode_of (Operation.set_x_attr _ _ _) = Opcode.setxattr
opcode_of (Operation.get_x_attr _ _) = Opcode.getxattr
opcode_of (Operation.list_x_attr _) = Opcode.listxattr
opcode_of (Operation.remove_x_attr _) = Opcode.removexattr
opcode_of (Operation.flush _) = Opcode.flush
opcode_of (Operation.init _) = Opcode.init
opcode_of (Operation.open_dir _) = Opcode.opendir
opcode_of (Operation.read_dir _) = Opcode.readdir
opcode_of (Operation.release_dir _) = Opcode.releasedir
opcode_of (Operation.f_sync_dir _) = Opcode.fsyncdir
opcode_of (Operation.get_lk _) = Opcode.getlk
opcode_of (Operation.set_lk _) = Opcode.setlk
opcode_of (Operation.set_lk_w _) = Opcode.setlkw
opcode_of (Operation.access _) = Opcode.access
opcode_of (Operation.create _ _) = Opcode.create
opcode_of (Operation.interrupt _) = Opcode.interrupt
opcode_of (Operation.b_map _) = Opcode.bmap
opcode_of Operation.destroy = Opcode.destroy

-- The arguments of an operation, with the bytes that follow them.
unfoldable pub args_before : Operation → Bytes → Bytes
args_before (Operation.lookup name) rest = name ++ 0 ∷ rest
args_before (Operation.forget arg) rest = encode forget_in_repr arg ++ rest
args_before Operation.get_attr rest = rest
args_before (Operation.set_attr arg) rest = encode setattr_in_repr arg ++ rest
args_before Operation.read_link rest = rest
args_before (Operation.sym_link name target) rest = name ++ 0 ∷ (target ++ 0 ∷ rest)
args_before (Operation.mk_nod arg name) rest = encode mknod_in_repr arg ++ (name ++ 0 ∷ rest)
args_before (Operation.mk_dir arg name) rest = encode mkdir_in_repr arg ++ (name ++ 0 ∷ rest)
args_before (Operation.unlink name) rest = name ++ 0 ∷ rest
args_before (Operation.rm_dir name) rest = name ++ 0 ∷ rest
args_before (Operation.rename arg name newname) rest =
    encode rename_in_repr arg ++ (name ++ 0 ∷ (newname ++ 0 ∷ rest))
args_before (Operation.link arg name) rest = encode link_in_repr arg ++ (name ++ 0 ∷ rest)
args_before (Operation.open_file arg) rest = encode open_in_repr arg ++ rest
args_before (Operation.read arg) rest = encode read_in_repr arg ++ rest
args_before (Operation.write arg bytes) _ = encode write_in_repr arg ++ bytes
args_before Operation.stat_fs rest = rest
args_before (Operation.release arg) rest = encode release_in_repr arg ++ rest
args_before (Operation.f_sync arg) rest = encode fsync_in_repr arg ++ rest
args_before (Operation.set_x_attr arg name value) _ =
    encode setxattr_in_repr arg ++ (name ++ 0 ∷ value)
args_before (Operation.get_x_attr arg name) rest = encode getxattr_in_repr arg ++ (name ++ 0 ∷ rest)
args_before (Operation.list_x_attr arg) rest = encode getxattr_in_repr arg ++ rest
args_before (Operation.remove_x_attr name) rest = name ++ 0 ∷ rest
args_before (Operation.flush arg) rest = encode flush_in_repr arg ++ rest
args_before (Operation.init arg) rest = encode init_in_repr arg ++ rest
args_before (Operation.open_dir arg) rest = encode open_in_repr arg ++ rest
args_before (Operation.read_dir arg) rest = encode read_in_repr arg ++ rest
args_before (Operation.release_dir arg) rest = encode release_in_repr arg ++ rest
args_before (Operation.f_sync_dir arg) rest = encode fsync_in_repr arg ++ rest
args_before (Operation.get_lk arg) rest = encode lk_in_repr arg ++ rest
args_before (Operation.set_lk arg) rest = encode lk_in_repr arg ++ rest
args_before (Operation.set_lk_w arg) rest = encode lk_in_repr arg ++ rest
args_before (Operation.access arg) rest = encode access_in_repr arg ++ rest
args_before (Operation.create arg name) rest = encode create_in_repr arg ++ (name ++ 0 ∷ rest)
args_before (Operation.interrupt arg) rest = encode interrupt_in_repr arg ++ rest
args_before (Operation.b_map arg) rest = encode bmap_in_repr arg ++ rest
args_before Operation.destroy rest = rest

-- Strings hold no terminator, and numbers fit their fields.
abbrev pub IsWellFormed : Operation → Type 0
IsWellFormed (Operation.lookup name) = NoZero name
IsWellFormed (Operation.forget arg) = Fits forget_in_repr arg
IsWellFormed Operation.get_attr = Unit
IsWellFormed (Operation.set_attr arg) = Fits setattr_in_repr arg
IsWellFormed Operation.read_link = Unit
IsWellFormed (Operation.sym_link name target) = NoZero name × NoZero target
IsWellFormed (Operation.mk_nod arg name) = Fits mknod_in_repr arg × NoZero name
IsWellFormed (Operation.mk_dir arg name) = Fits mkdir_in_repr arg × NoZero name
IsWellFormed (Operation.unlink name) = NoZero name
IsWellFormed (Operation.rm_dir name) = NoZero name
IsWellFormed (Operation.rename arg name newname) =
    Fits rename_in_repr arg × NoZero name × NoZero newname
IsWellFormed (Operation.link arg name) = Fits link_in_repr arg × NoZero name
IsWellFormed (Operation.open_file arg) = Fits open_in_repr arg
IsWellFormed (Operation.read arg) = Fits read_in_repr arg
IsWellFormed (Operation.write arg bytes) = Fits write_in_repr arg
IsWellFormed Operation.stat_fs = Unit
IsWellFormed (Operation.release arg) = Fits release_in_repr arg
IsWellFormed (Operation.f_sync arg) = Fits fsync_in_repr arg
IsWellFormed (Operation.set_x_attr arg name value) = Fits setxattr_in_repr arg × NoZero name
IsWellFormed (Operation.get_x_attr arg name) = Fits getxattr_in_repr arg × NoZero name
IsWellFormed (Operation.list_x_attr arg) = Fits getxattr_in_repr arg
IsWellFormed (Operation.remove_x_attr name) = NoZero name
IsWellFormed (Operation.flush arg) = Fits flush_in_repr arg
IsWellFormed (Operation.init arg) = Fits init_in_repr arg
IsWellFormed (Operation.open_dir arg) = Fits open_in_repr arg
IsWellFormed (Operation.read_dir arg) = Fits read_in_repr arg
IsWellFormed (Operation.release_dir arg) = Fits release_in_repr arg
IsWellFormed (Operation.f_sync_dir arg) = Fits fsync_in_repr arg
IsWellFormed (Operation.get_lk arg) = Fits lk_in_repr arg
IsWellFormed (Operation.set_lk arg) = Fits lk_in_repr arg
IsWellFormed (Operation.set_lk_w arg) = Fits lk_in_repr arg
IsWellFormed (Operation.access arg) = Fits access_in_repr arg
IsWellFormed (Operation.create arg name) = Fits create_in_repr arg × NoZero name
IsWellFormed (Operation.interrupt arg) = Fits interrupt_in_repr arg
IsWellFormed (Operation.b_map arg) = Fits bmap_in_repr arg
IsWellFormed Operation.destroy = Unit

-- What an operation leaves of the bytes behind its arguments: a body takes them all.
abbrev pub left_by : Operation → Bytes → Bytes
left_by (Operation.write _ _) rest = []
left_by (Operation.set_x_attr _ _ _) rest = []
left_by _ rest = rest
