-- ===== src/Reply/Directory/Reader.antt =====
-- The kernel's reading of a directory buffer, an independent description of the format that `add` of
-- src/reply.rs writes.
use async_fuse_rs.Prelude.{
  ◌*◌, ◌/◌, ◌^◌, bit_or, ℕ, zero, suc, ◌+◌, ◌-◌, ◌≤◌, ◌≡◌, refl, ap, ◌∙◌, arith, ltb, le→ltb,
  if◌then◌else◌, List, [], ◌∷◌, ◌++◌, map, append_assoc, length, length-append, replicate, take,
  drop, take-append, drop-append, All,
}
use async_fuse_rs.Bytes.{Bytes}
use async_fuse_rs.Bits.{bit_or_disjoint}
use async_fuse_rs.FileAttr.{
  FileType, named_pipe, char_device, block_device, directory, regular_file, symlink, socket,
}
use async_fuse_rs.Reply.Attr.{kind_bits, mode_from_kind_and_perm}
use async_fuse_rs.Libc.{Libc, linux}
use async_fuse_rs.Abi.Layout.{encode, decode, Fits}
use async_fuse_rs.Abi.Layout.Laws.{length-encode, decode-encode}
use async_fuse_rs.Abi.Replies.{FuseDirent, dirent_repr}
use async_fuse_rs.Reply.Directory.{DirEntry, clear_low_bits, ent_len, ent_size, dirent, entry_bytes}
use async_fuse_rs.Reply.Directory.Filling.{all_bytes, length-entry_bytes, ent_size_bounds}

-- Struct, name, and on to the next multiple of 8, until less than a struct is left.
unfoldable pub read_entries : ℕ → Bytes → List (FuseDirent × Bytes)
read_entries zero bytes = []
read_entries (suc fuel) bytes =
    let header = decode dirent_repr (take 24 bytes) in
    let rest = read_entries fuel (drop (clear_low_bits (24 + header.namelen + 7)) bytes) in
    if ltb (length bytes) 24 then [] else (header, take header.namelen (drop 24 bytes)) ∷ rest

-- The types of Linux's directory entries.
abbrev dirent_type : FileType → ℕ
dirent_type named_pipe = 1
dirent_type char_device = 2
dirent_type directory = 4
dirent_type block_device = 6
dirent_type regular_file = 8
dirent_type symlink = 10
dirent_type socket = 12

-- The type of a file in its mode is that of its directory entry, with twelve bits for the permissions.
pub record HasDirentTypes (libc : Libc) : Type 0 where
  pub ififo : libc.s_ififo ≡ 1 * 4096
  pub ifchr : libc.s_ifchr ≡ 2 * 4096
  pub ifdir : libc.s_ifdir ≡ 4 * 4096
  pub ifblk : libc.s_ifblk ≡ 6 * 4096
  pub ifreg : libc.s_ifreg ≡ 8 * 4096
  pub iflnk : libc.s_iflnk ≡ 10 * 4096
  pub ifsock : libc.s_ifsock ≡ 12 * 4096

-- What the kernel should see of an entry.
abbrev pub seen : DirEntry → FuseDirent × Bytes
seen e = (
  record { ino = e.ino; off = e.offset; namelen = length e.name; typ = dirent_type e.kind },
  e.name,
)

-- The numbers of an entry fit the struct.
abbrev pub IsEntry : DirEntry → Type 0
IsEntry e = Fits dirent_repr (seen e).0

kind_bits-dirent_type :
    (libc : Libc) (k : FileType) → HasDirentTypes libc → kind_bits libc k ≡ dirent_type k * 2 ^ 12
unfolding kind_bits
kind_bits-dirent_type libc named_pipe h = h.ififo
kind_bits-dirent_type libc char_device h = h.ifchr
kind_bits-dirent_type libc block_device h = h.ifblk
kind_bits-dirent_type libc directory h = h.ifdir
kind_bits-dirent_type libc regular_file h = h.ifreg
kind_bits-dirent_type libc symlink h = h.iflnk
kind_bits-dirent_type libc socket h = h.ifsock

type_lem :
    (libc : Libc) (k : FileType)
    → HasDirentTypes libc
    → mode_from_kind_and_perm libc k 0 / 2 ^ 12 ≡ dirent_type k
unfolding mode_from_kind_and_perm
type_lem libc k h =
    ap (λ (t : ℕ). bit_or t 0 / 2 ^ 12) (kind_bits-dirent_type libc k h)
    ∙ omega (arith, bit_or_disjoint 12 (dirent_type k) 0 (omega arith))

dirent-seen :
    (libc : Libc) (e : DirEntry) → HasDirentTypes libc → IsEntry e → dirent libc e ≡ (seen e).0
unfolding dirent
dirent-seen libc e t h = rw (type_lem libc e.kind t) (
    ap (λ (n : ℕ). record { ino = e.ino; off = e.offset; namelen = n; typ = dirent_type e.kind })
      (omega (arith, h)))

entry_front :
    (libc : Libc) (e : DirEntry) (rest : Bytes)
    → entry_bytes libc e ++ rest
      ≡ encode dirent_repr (dirent libc e)
        ++ (e.name ++ (replicate (ent_size e - ent_len e) 0 ++ rest))
unfolding entry_bytes
entry_front libc e rest =
    append_assoc (encode dirent_repr (dirent libc e))
      (e.name ++ replicate (ent_size e - ent_len e) 0) rest
    ∙ ap (λ t. encode dirent_repr (dirent libc e) ++ t)
        (append_assoc e.name (replicate (ent_size e - ent_len e) 0) rest)

module _ (libc : Libc) (types : HasDirentTypes libc) (e : DirEntry) (rest : Bytes)
    (h : IsEntry e) where
  header_read : decode dirent_repr (take 24 (entry_bytes libc e ++ rest)) ≡ (seen e).0
  header_read = rw (entry_front libc e rest) (
      rw
        (take-append 24 (encode dirent_repr (dirent libc e)) _
          (length-encode dirent_repr (dirent libc e)))
        (rw (dirent-seen libc e types h) (decode-encode dirent_repr (seen e).0 h)))

  name_read : take (length e.name) (drop 24 (entry_bytes libc e ++ rest)) ≡ e.name
  name_read = rw (entry_front libc e rest) (
      rw
        (drop-append 24 (encode dirent_repr (dirent libc e)) _
          (length-encode dirent_repr (dirent libc e)))
        (take-append (length e.name) e.name _ refl))

  rest_read : drop (clear_low_bits (24 + length e.name + 7)) (entry_bytes libc e ++ rest) ≡ rest
  rest_read = drop-append _ (entry_bytes libc e) rest (rw length-entry_bytes size_lem)
    where
      size_lem : ent_size e ≡ clear_low_bits (24 + length e.name + 7)
      size_lem = unfold ent_size in omega arith

  enough : 24 ≤ length (entry_bytes libc e ++ rest)
  unfolding ent_len
  enough =
      omega (
        arith,
        length-append (entry_bytes libc e) rest,
        length-entry_bytes libc e,
        ent_size_bounds e,
      )

  read_entries_step :
      (fuel : ℕ)
      → read_entries (suc fuel) (entry_bytes libc e ++ rest) ≡ seen e ∷ read_entries fuel rest
  unfolding read_entries
  read_entries_step fuel =
      rw (le→ltb (length (entry_bytes libc e ++ rest)) 24 enough)
        (rw (header_read, name_read, rest_read))

-- If the numbers of the entries fit their fields, the lengths of the names included, and the file types of the
-- C library are those of Linux's directory entries, the kernel reads back from a buffer of entries exactly
-- their inodes, offsets, types and names, in their order, with fuel for one step each.
pub read_entries-all_bytes :
    (libc : Libc) (es : List DirEntry) (fuel : ℕ)
    → HasDirentTypes libc
    → All IsEntry es
    → length es ≤ fuel
    → read_entries fuel (all_bytes libc es) ≡ map seen es
read_entries-all_bytes libc [] zero t h f = unfold read_entries in refl
read_entries-all_bytes libc [] (suc fuel) t h f = unfold read_entries in refl
read_entries-all_bytes libc (e ∷ es) zero t h f = absurd (omega arith)
read_entries-all_bytes libc (e ∷ es) (suc fuel) t (h, hs) f =
    read_entries_step libc t e (all_bytes libc es) h fuel
    ∙ ap (λ z. seen e ∷ z) (read_entries-all_bytes libc es fuel t hs (omega arith))

pub linux-HasDirentTypes : HasDirentTypes linux
linux-HasDirentTypes = record {
  ififo = refl;
  ifchr = refl;
  ifdir = refl;
  ifblk = refl;
  ifreg = refl;
  iflnk = refl;
  ifsock = refl;
}
