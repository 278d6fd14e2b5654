-- ===== src/Ll/Validity.antt =====
-- What parsing makes of arbitrary bytes (src/ll/request.rs).
use async_fuse_rs.Prelude.{
  ◌≡◌, refl, sym, subst, ltb, Bool-cases, inl, inr, Option, none, some, All, length, [], ◌∷◌, ◌++◌,
}
use async_fuse_rs.Bytes.{Bytes, IsByte}
use async_fuse_rs.Abi.Layout.{Repr, Fits, size_of}
use async_fuse_rs.Abi.Layout.Laws.{decode-Fits, take-IsByte, drop-IsByte}
use async_fuse_rs.Abi.Opcode.{Opcode}
use async_fuse_rs.Abi.Requests.{
  forget_in_repr, setattr_in_repr, mknod_in_repr, mkdir_in_repr, rename_in_repr, link_in_repr,
  open_in_repr, release_in_repr, flush_in_repr, create_in_repr,
}
use async_fuse_rs.Abi.FileRequests.{
  read_in_repr, write_in_repr, fsync_in_repr, setxattr_in_repr, getxattr_in_repr, init_in_repr,
  lk_in_repr, access_in_repr, interrupt_in_repr, bmap_in_repr,
}
use async_fuse_rs.Ll.Argument.{
  ArgumentIterator, Fetch, ◌>>=◌, after, pure, fetch_bytes, fetch, fetch_all, fetch_str,
}
use async_fuse_rs.Ll.Argument.Laws.{at, NoZero, Terminated-cases, fetch_str_iff, fetch_str_absent}
use async_fuse_rs.Ll.Operation.{Operation, parse}
use async_fuse_rs.Ll.Wire.{opcode_of, IsWellFormed}

-- A result that satisfies `P`, with only bytes left; a failure satisfies everything.
abbrev pub Good : {A : Type 0} → (A → Type 0) → Option A × ArgumentIterator → Type 0
Good P (none, it) = Unit
Good P (some a, it) = P a × All IsByte it.bytes

-- On bytes, a fetch returns what satisfies `P`.
pub record Ensures {A : Type 0} (P : A → Type 0) (m : Fetch A) : Type 0 where
  pub run : (it : ArgumentIterator) → All IsByte it.bytes → Good P (m it)

Good-after :
    {A B : Type 0} (P : A → Type 0) (Q : B → Type 0) (p : Option A × ArgumentIterator)
    (f : A → Fetch B)
    → Good P p
    → ((a : A) → P a → Ensures Q (f a))
    → Good Q (after p f)
Good-after P Q (none, it) f g k = tt
Good-after P Q (some a, it) f g k = (k a g.0).run it g.1

Ensures-bind :
    {A B : Type 0} (P : A → Type 0) (Q : B → Type 0) (m : Fetch A) (f : A → Fetch B)
    → Ensures P m
    → ((a : A) → P a → Ensures Q (f a))
    → Ensures Q (m >>= f)
Ensures-bind P Q m f e k = record { run = λ it h. Good-after P Q (m it) f (e.run it h) k }

Ensures-pure : {A : Type 0} (P : A → Type 0) (a : A) → P a → Ensures P (pure a)
Ensures-pure P a p = record { run = λ it h. (p, h) }

fetch-Good :
    {T : Type 0} (r : Repr T) (it : ArgumentIterator)
    → All IsByte it.bytes
    → Good (Fits r) (fetch r it)
unfolding fetch fetch_bytes
fetch-Good r it h = elim (Bool-cases (ltb (length it.bytes) (size_of r))) [
  | inl short ↦ rw short tt
  | inr enough ↦
      rw enough
        (decode-Fits r _ (take-IsByte (size_of r) it.bytes h), drop-IsByte (size_of r) it.bytes h)
]

fetch-Ensures : {T : Type 0} (r : Repr T) → Ensures (Fits r) (fetch r)
fetch-Ensures r = record { run = fetch-Good r }

behind_IsByte : (name rest : Bytes) → All IsByte (name ++ 0 ∷ rest) → All IsByte rest
behind_IsByte [] rest h = h.1
behind_IsByte (c ∷ name) rest h = behind_IsByte name rest h.1

fetch_str-Good : (it : ArgumentIterator) → All IsByte it.bytes → Good NoZero (fetch_str it)
fetch_str-Good it h = elim (Terminated-cases it.bytes) [
  | inl (name, rest, hn, b) ↦
      subst (Good NoZero) (sym ((fetch_str_iff it (at rest) name).1 (hn, b)))
        (hn, behind_IsByte name rest (subst (All IsByte) b h))
  | inr none_left ↦ subst (Good NoZero) (sym (fetch_str_absent it none_left)) tt
]

fetch_str-Ensures : Ensures NoZero fetch_str
fetch_str-Ensures = record { run = fetch_str-Good }

fetch_all-Ensures : Ensures (λ _. Unit {0}) fetch_all
unfolding fetch_all
fetch_all-Ensures = record { run = λ it h. (tt, tt) }

-- The operation belongs to the code, and is well formed.
abbrev pub IsParsed : Opcode → Operation → Type 0
IsParsed code op = (opcode_of op ≡ code) × IsWellFormed op

parse-Ensures : (code : Opcode) → Ensures (IsParsed code) (parse code)
unfolding parse
parse-Ensures Opcode.lookup =
    Ensures-bind _ _ _ _ fetch_str-Ensures λ name h_name. Ensures-pure _ _ (refl, h_name)
parse-Ensures Opcode.forget =
    Ensures-bind _ _ _ _ (fetch-Ensures forget_in_repr) λ arg h_arg. Ensures-pure _ _ (refl, h_arg)
parse-Ensures Opcode.getattr = Ensures-pure _ _ (refl, tt)
parse-Ensures Opcode.setattr =
    Ensures-bind _ _ _ _ (fetch-Ensures setattr_in_repr) λ arg h_arg. Ensures-pure _ _ (refl, h_arg)
parse-Ensures Opcode.readlink = Ensures-pure _ _ (refl, tt)
parse-Ensures Opcode.symlink = Ensures-bind _ _ _ _ fetch_str-Ensures λ name h_name.
    Ensures-bind _ _ _ _ fetch_str-Ensures
      λ target h_target. Ensures-pure _ _ (refl, (h_name, h_target))
parse-Ensures Opcode.mknod = Ensures-bind _ _ _ _ (fetch-Ensures mknod_in_repr) λ arg h_arg.
    Ensures-bind _ _ _ _ fetch_str-Ensures λ name h_name. Ensures-pure _ _ (refl, (h_arg, h_name))
parse-Ensures Opcode.mkdir = Ensures-bind _ _ _ _ (fetch-Ensures mkdir_in_repr) λ arg h_arg.
    Ensures-bind _ _ _ _ fetch_str-Ensures λ name h_name. Ensures-pure _ _ (refl, (h_arg, h_name))
parse-Ensures Opcode.unlink =
    Ensures-bind _ _ _ _ fetch_str-Ensures λ name h_name. Ensures-pure _ _ (refl, h_name)
parse-Ensures Opcode.rmdir =
    Ensures-bind _ _ _ _ fetch_str-Ensures λ name h_name. Ensures-pure _ _ (refl, h_name)
parse-Ensures Opcode.rename = Ensures-bind _ _ _ _ (fetch-Ensures rename_in_repr) λ arg h_arg.
    Ensures-bind _ _ _ _ fetch_str-Ensures λ name h_name.
      Ensures-bind _ _ _ _ fetch_str-Ensures
        λ newname h_newname. Ensures-pure _ _ (refl, (h_arg, h_name, h_newname))
parse-Ensures Opcode.link = Ensures-bind _ _ _ _ (fetch-Ensures link_in_repr) λ arg h_arg.
    Ensures-bind _ _ _ _ fetch_str-Ensures λ name h_name. Ensures-pure _ _ (refl, (h_arg, h_name))
parse-Ensures Opcode.open_file =
    Ensures-bind _ _ _ _ (fetch-Ensures open_in_repr) λ arg h_arg. Ensures-pure _ _ (refl, h_arg)
parse-Ensures Opcode.read =
    Ensures-bind _ _ _ _ (fetch-Ensures read_in_repr) λ arg h_arg. Ensures-pure _ _ (refl, h_arg)
parse-Ensures Opcode.write =
    Ensures-bind _ _ _ _ (fetch-Ensures write_in_repr)
      λ arg h_arg. Ensures-bind _ _ _ _ fetch_all-Ensures λ bytes _. Ensures-pure _ _ (refl, h_arg)
parse-Ensures Opcode.statfs = Ensures-pure _ _ (refl, tt)
parse-Ensures Opcode.release =
    Ensures-bind _ _ _ _ (fetch-Ensures release_in_repr) λ arg h_arg. Ensures-pure _ _ (refl, h_arg)
parse-Ensures Opcode.fsync =
    Ensures-bind _ _ _ _ (fetch-Ensures fsync_in_repr) λ arg h_arg. Ensures-pure _ _ (refl, h_arg)
parse-Ensures Opcode.setxattr = Ensures-bind _ _ _ _ (fetch-Ensures setxattr_in_repr) λ arg h_arg.
    Ensures-bind _ _ _ _ fetch_str-Ensures λ name h_name.
      Ensures-bind _ _ _ _ fetch_all-Ensures λ value _. Ensures-pure _ _ (refl, (h_arg, h_name))
parse-Ensures Opcode.getxattr = Ensures-bind _ _ _ _ (fetch-Ensures getxattr_in_repr) λ arg h_arg.
    Ensures-bind _ _ _ _ fetch_str-Ensures λ name h_name. Ensures-pure _ _ (refl, (h_arg, h_name))
parse-Ensures Opcode.listxattr =
    Ensures-bind _ _ _ _ (fetch-Ensures getxattr_in_repr)
      λ arg h_arg. Ensures-pure _ _ (refl, h_arg)
parse-Ensures Opcode.removexattr =
    Ensures-bind _ _ _ _ fetch_str-Ensures λ name h_name. Ensures-pure _ _ (refl, h_name)
parse-Ensures Opcode.flush =
    Ensures-bind _ _ _ _ (fetch-Ensures flush_in_repr) λ arg h_arg. Ensures-pure _ _ (refl, h_arg)
parse-Ensures Opcode.init =
    Ensures-bind _ _ _ _ (fetch-Ensures init_in_repr) λ arg h_arg. Ensures-pure _ _ (refl, h_arg)
parse-Ensures Opcode.opendir =
    Ensures-bind _ _ _ _ (fetch-Ensures open_in_repr) λ arg h_arg. Ensures-pure _ _ (refl, h_arg)
parse-Ensures Opcode.readdir =
    Ensures-bind _ _ _ _ (fetch-Ensures read_in_repr) λ arg h_arg. Ensures-pure _ _ (refl, h_arg)
parse-Ensures Opcode.releasedir =
    Ensures-bind _ _ _ _ (fetch-Ensures release_in_repr) λ arg h_arg. Ensures-pure _ _ (refl, h_arg)
parse-Ensures Opcode.fsyncdir =
    Ensures-bind _ _ _ _ (fetch-Ensures fsync_in_repr) λ arg h_arg. Ensures-pure _ _ (refl, h_arg)
parse-Ensures Opcode.getlk =
    Ensures-bind _ _ _ _ (fetch-Ensures lk_in_repr) λ arg h_arg. Ensures-pure _ _ (refl, h_arg)
parse-Ensures Opcode.setlk =
    Ensures-bind _ _ _ _ (fetch-Ensures lk_in_repr) λ arg h_arg. Ensures-pure _ _ (refl, h_arg)
parse-Ensures Opcode.setlkw =
    Ensures-bind _ _ _ _ (fetch-Ensures lk_in_repr) λ arg h_arg. Ensures-pure _ _ (refl, h_arg)
parse-Ensures Opcode.access =
    Ensures-bind _ _ _ _ (fetch-Ensures access_in_repr) λ arg h_arg. Ensures-pure _ _ (refl, h_arg)
parse-Ensures Opcode.create = Ensures-bind _ _ _ _ (fetch-Ensures create_in_repr) λ arg h_arg.
    Ensures-bind _ _ _ _ fetch_str-Ensures λ name h_name. Ensures-pure _ _ (refl, (h_arg, h_name))
parse-Ensures Opcode.interrupt =
    Ensures-bind _ _ _ _ (fetch-Ensures interrupt_in_repr)
      λ arg h_arg. Ensures-pure _ _ (refl, h_arg)
parse-Ensures Opcode.bmap =
    Ensures-bind _ _ _ _ (fetch-Ensures bmap_in_repr) λ arg h_arg. Ensures-pure _ _ (refl, h_arg)
parse-Ensures Opcode.destroy = Ensures-pure _ _ (refl, tt)

-- On bytes, whatever operation `parse` returns carries the code that was asked for, its strings hold
-- no terminator and its numbers fit their fields.
pub parse-IsParsed :
    (code : Opcode) (it : ArgumentIterator) (op : Operation) (it' : ArgumentIterator)
    → All IsByte it.bytes
    → parse code it ≡ (some op, it')
    → IsParsed code op
parse-IsParsed code it op it' h e =
    (subst (Good (IsParsed code)) e ((parse-Ensures code).run it h)).0
