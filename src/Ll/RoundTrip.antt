-- ===== src/Ll/RoundTrip.antt =====
-- Parsing of operations in the wire format (src/ll/request.rs).
use async_fuse_rs.Prelude.{◌≡◌, refl, some, ◌++◌, ◌∷◌}
use async_fuse_rs.Bytes.{Bytes}
use async_fuse_rs.Abi.Requests.{
  forget_in_repr, setattr_in_repr, mknod_in_repr, mkdir_in_repr, rename_in_repr, link_in_repr,
  open_in_repr, release_in_repr, flush_in_repr, create_in_repr,
}
use async_fuse_rs.Abi.FileRequests.{
  read_in_repr, write_in_repr, fsync_in_repr, setxattr_in_repr, getxattr_in_repr, init_in_repr,
  lk_in_repr, access_in_repr, interrupt_in_repr, bmap_in_repr,
}
use async_fuse_rs.Ll.Argument.{fetch_all}
use async_fuse_rs.Ll.Argument.Laws.{at, fetch-encode, fetch_str-append}
use async_fuse_rs.Ll.Operation.{Operation, parse}
use async_fuse_rs.Ll.Wire.{opcode_of, args_before, IsWellFormed, left_by}

-- From the arguments of a well-formed operation, `parse` makes that operation.
pub parse-args_before :
    (op : Operation) (rest : Bytes)
    → IsWellFormed op
    → parse (opcode_of op) (at (args_before op rest)) ≡ (some op, at (left_by op rest))
unfolding parse args_before fetch_all
parse-args_before (Operation.lookup name) rest h = rw (fetch_str-append name rest h)
parse-args_before (Operation.forget arg) rest h = rw (fetch-encode forget_in_repr arg rest h)
parse-args_before Operation.get_attr rest h = refl
parse-args_before (Operation.set_attr arg) rest h = rw (fetch-encode setattr_in_repr arg rest h)
parse-args_before Operation.read_link rest h = refl
parse-args_before (Operation.sym_link name target) rest h =
    rw (fetch_str-append name (target ++ 0 ∷ rest) h.0) (rw (fetch_str-append target rest h.1))
parse-args_before (Operation.mk_nod arg name) rest h =
    rw (fetch-encode mknod_in_repr arg (name ++ 0 ∷ rest) h.0) (rw (fetch_str-append name rest h.1))
parse-args_before (Operation.mk_dir arg name) rest h =
    rw (fetch-encode mkdir_in_repr arg (name ++ 0 ∷ rest) h.0) (rw (fetch_str-append name rest h.1))
parse-args_before (Operation.unlink name) rest h = rw (fetch_str-append name rest h)
parse-args_before (Operation.rm_dir name) rest h = rw (fetch_str-append name rest h)
parse-args_before (Operation.rename arg name newname) rest h =
    rw (fetch-encode rename_in_repr arg (name ++ 0 ∷ (newname ++ 0 ∷ rest)) h.0) (
      rw (fetch_str-append name (newname ++ 0 ∷ rest) h.1) (rw (fetch_str-append newname rest h.2)))
parse-args_before (Operation.link arg name) rest h =
    rw (fetch-encode link_in_repr arg (name ++ 0 ∷ rest) h.0) (rw (fetch_str-append name rest h.1))
parse-args_before (Operation.open_file arg) rest h = rw (fetch-encode open_in_repr arg rest h)
parse-args_before (Operation.read arg) rest h = rw (fetch-encode read_in_repr arg rest h)
parse-args_before (Operation.write arg bytes) rest h = rw (fetch-encode write_in_repr arg bytes h)
parse-args_before Operation.stat_fs rest h = refl
parse-args_before (Operation.release arg) rest h = rw (fetch-encode release_in_repr arg rest h)
parse-args_before (Operation.f_sync arg) rest h = rw (fetch-encode fsync_in_repr arg rest h)
parse-args_before (Operation.set_x_attr arg name value) rest h =
    rw (fetch-encode setxattr_in_repr arg (name ++ 0 ∷ value) h.0)
      (rw (fetch_str-append name value h.1))
parse-args_before (Operation.get_x_attr arg name) rest h =
    rw (fetch-encode getxattr_in_repr arg (name ++ 0 ∷ rest) h.0)
      (rw (fetch_str-append name rest h.1))
parse-args_before (Operation.list_x_attr arg) rest h = rw (fetch-encode getxattr_in_repr arg rest h)
parse-args_before (Operation.remove_x_attr name) rest h = rw (fetch_str-append name rest h)
parse-args_before (Operation.flush arg) rest h = rw (fetch-encode flush_in_repr arg rest h)
parse-args_before (Operation.init arg) rest h = rw (fetch-encode init_in_repr arg rest h)
parse-args_before (Operation.open_dir arg) rest h = rw (fetch-encode open_in_repr arg rest h)
parse-args_before (Operation.read_dir arg) rest h = rw (fetch-encode read_in_repr arg rest h)
parse-args_before (Operation.release_dir arg) rest h = rw (fetch-encode release_in_repr arg rest h)
parse-args_before (Operation.f_sync_dir arg) rest h = rw (fetch-encode fsync_in_repr arg rest h)
parse-args_before (Operation.get_lk arg) rest h = rw (fetch-encode lk_in_repr arg rest h)
parse-args_before (Operation.set_lk arg) rest h = rw (fetch-encode lk_in_repr arg rest h)
parse-args_before (Operation.set_lk_w arg) rest h = rw (fetch-encode lk_in_repr arg rest h)
parse-args_before (Operation.access arg) rest h = rw (fetch-encode access_in_repr arg rest h)
parse-args_before (Operation.create arg name) rest h =
    rw (fetch-encode create_in_repr arg (name ++ 0 ∷ rest) h.0)
      (rw (fetch_str-append name rest h.1))
parse-args_before (Operation.interrupt arg) rest h = rw (fetch-encode interrupt_in_repr arg rest h)
parse-args_before (Operation.b_map arg) rest h = rw (fetch-encode bmap_in_repr arg rest h)
parse-args_before Operation.destroy rest h = refl
