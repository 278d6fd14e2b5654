-- ===== src/Abi/Layout.antt =====
-- The memory layout of `#[repr(C)]` structs (fuse-abi/src/lib.rs), as the casts of `fetch` in
-- src/ll/argument.rs and `as_bytes` in src/reply.rs read and write it.
pub mod Laws
use Prim.Native.Nat.{max}
use mathlib.Core.List.{foldr}
use async_fuse_rs.Prelude.{
  ℕ, ◌+◌, ◌-◌, ◌%◌, ◌^◌, ◌<◌, ◌≡◌, List, [], ◌∷◌, ◌++◌, take, drop, replicate,
}
use async_fuse_rs.Bytes.{Bytes, to_le_bytes, from_le_bytes}

-- The next multiple of `align`.
abbrev pub align_up : ℕ → ℕ → ℕ
align_up align n = n + (align - n % align) % align

-- The rule of `repr(C)` for fields of the given widths, each aligned to its own width: the offset of
-- every field behind `at`, and the size, rounded up to the widest alignment.
abbrev pub field_offsets : ℕ → List ℕ → List ℕ
field_offsets at [] = []
field_offsets at (w ∷ ws) = align_up w at ∷ field_offsets (align_up w at + w) ws

abbrev pub fields_end : ℕ → List ℕ → ℕ
fields_end at [] = at
fields_end at (w ∷ ws) = fields_end (align_up w at + w) ws

abbrev pub size_of_fields : List ℕ → ℕ
size_of_fields ws = align_up (foldr max 1 ws) (fields_end 0 ws)

abbrev pub sum : List ℕ → ℕ
sum [] = 0
sum (w ∷ ws) = w + sum ws

-- The offsets of fields that follow one another with no gap.
abbrev pub packed_offsets : ℕ → List ℕ → List ℕ
packed_offsets at [] = []
packed_offsets at (w ∷ ws) = at ∷ packed_offsets (at + w) ws

-- The fields of a struct, written and read one behind the other.
unfoldable pub pack : List ℕ → List ℕ → Bytes
pack [] vs = []
pack (w ∷ ws) [] = to_le_bytes w 0 ++ pack ws []
pack (w ∷ ws) (v ∷ vs) = to_le_bytes w v ++ pack ws vs

abbrev pub unpack : List ℕ → Bytes → List ℕ
unpack [] bs = []
unpack (w ∷ ws) bs = from_le_bytes (take w bs) ∷ unpack ws (drop w bs)

-- Each value is within the width of its field.
abbrev pub AllFit : List ℕ → List ℕ → Type 0
AllFit [] [] = Unit
AllFit [] (v ∷ vs) = ⊥
AllFit (w ∷ ws) [] = ⊥
AllFit (w ∷ ws) (v ∷ vs) = (v < 256 ^ w) × AllFit ws vs

-- A type with a C representation: the widths of its fields in memory order, and its values as the
-- list of their fields. No field has padding before it; behind the last there may be some.
pub record Repr (T : Type 0) : Type 0 where
  pub widths : List ℕ
  pub of_fields : List ℕ → T
  pub to_fields : T → List ℕ
  pub of_fields-to_fields : (t : T) → of_fields (to_fields t) ≡ t
  pub to_fields-of_fields :
      (bs : Bytes) → to_fields (of_fields (unpack widths bs)) ≡ unpack widths bs
  pub no_gaps : field_offsets 0 widths ≡ packed_offsets 0 widths

module _ {T : Type 0} where
  -- `mem::size_of::<T>()`.
  abbrev pub size_of : Repr T → ℕ
  size_of r = size_of_fields r.widths

  -- The value that a cast pointer shows, and the bytes of a value.
  unfoldable pub decode : Repr T → Bytes → T
  decode r bs = r.of_fields (unpack r.widths bs)

  -- Padding behind the fields is written as zeros.
  unfoldable pub encode : Repr T → T → Bytes
  encode r t = pack r.widths (r.to_fields t) ++ replicate (size_of r - sum r.widths) 0

  abbrev pub Fits : Repr T → T → Type 0
  Fits r t = AllFit r.widths (r.to_fields t)
