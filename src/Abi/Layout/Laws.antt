-- ===== src/Abi/Layout/Laws.antt =====
-- Laws of the representation of structs (fuse-abi/src/lib.rs).
use async_fuse_rs.Prelude.{
  ℕ, zero, suc, ◌+◌, ◌-◌, ◌^◌, ◌≤◌, ◌<◌, ◌≡◌, refl, ap, ◌∙◌, arith, List, [], ◌∷◌, ◌++◌,
  append_assoc, length, length-append, length-replicate, length-take, take, drop, replicate,
  take-append, drop-append, All, All-append,
}
use native.Mathlib.Nat.{pow-suc, pow-le-pow_right}
use async_fuse_rs.Bytes.{
  Bytes, IsByte, to_le_bytes, from_le_bytes, length-to_le_bytes, to_le_bytes-IsByte,
  from_le_bytes-to_le_bytes,
}
use async_fuse_rs.Abi.Layout.{
  align_up, fields_end, size_of_fields, sum, pack, unpack, AllFit, Repr, size_of, decode, encode,
  Fits,
}

pub length-pack : (ws vs : List ℕ) → length (pack ws vs) ≡ sum ws
unfolding pack
length-pack [] vs = refl
length-pack (w ∷ ws) [] =
    omega (
      arith,
      length-append (to_le_bytes w 0) (pack ws []),
      length-to_le_bytes w 0,
      length-pack ws [],
    )
length-pack (w ∷ ws) (v ∷ vs) =
    omega (
      arith,
      length-append (to_le_bytes w v) (pack ws vs),
      length-to_le_bytes w v,
      length-pack ws vs,
    )

pack-IsByte : (ws vs : List ℕ) → AllFit ws vs → All IsByte (pack ws vs)
unfolding pack
pack-IsByte [] [] h = tt
pack-IsByte [] (v ∷ vs) h = elim h [ ]
pack-IsByte (w ∷ ws) [] h = elim h [ ]
pack-IsByte (w ∷ ws) (v ∷ vs) (hv, hvs) =
    All-append IsByte _ _ (to_le_bytes-IsByte w v) (pack-IsByte ws vs hvs)

unpack-pack : (ws vs : List ℕ) (rest : Bytes) → AllFit ws vs → unpack ws (pack ws vs ++ rest) ≡ vs
unfolding pack
unpack-pack [] [] rest h = refl
unpack-pack [] (v ∷ vs) rest h = elim h [ ]
unpack-pack (w ∷ ws) [] rest h = elim h [ ]
unpack-pack (w ∷ ws) (v ∷ vs) rest (hv, hvs) =
    rw (append_assoc (to_le_bytes w v) (pack ws vs) rest) (
      rw (
        take-append w (to_le_bytes w v) (pack ws vs ++ rest) (length-to_le_bytes w v),
        drop-append w (to_le_bytes w v) (pack ws vs ++ rest) (length-to_le_bytes w v),
        from_le_bytes-to_le_bytes w v hv,
        unpack-pack ws vs rest hvs,
      ))

from_le_bytes-lt : (bs : Bytes) → All IsByte bs → from_le_bytes bs < 256 ^ length bs
unfolding from_le_bytes
from_le_bytes-lt [] h = omega arith
from_le_bytes-lt (b ∷ bs) (hb, hbs) =
    omega (arith, from_le_bytes-lt bs hbs, pow-suc 256 (length bs))

pub take-IsByte : (n : ℕ) (bs : Bytes) → All IsByte bs → All IsByte (take n bs)
take-IsByte zero bs h = tt
take-IsByte (suc n) [] h = tt
take-IsByte (suc n) (b ∷ bs) (hb, hbs) = (hb, take-IsByte n bs hbs)

pub drop-IsByte : (n : ℕ) (bs : Bytes) → All IsByte bs → All IsByte (drop n bs)
drop-IsByte zero bs h = h
drop-IsByte (suc n) [] h = tt
drop-IsByte (suc n) (b ∷ bs) (hb, hbs) = drop-IsByte n bs hbs

unpack-AllFit : (ws : List ℕ) (bs : Bytes) → All IsByte bs → AllFit ws (unpack ws bs)
unpack-AllFit [] bs h = tt
unpack-AllFit (w ∷ ws) bs h = (
  omega (
    arith,
    from_le_bytes-lt (take w bs) (take-IsByte w bs h),
    pow-le-pow_right {n = 256} (omega arith) {i = length (take w bs)} {j = w}
        (omega (arith, length-take w bs)),
  ),
  unpack-AllFit ws (drop w bs) (drop-IsByte w bs h),
)

fields_end_bound : (at : ℕ) (ws : List ℕ) → at + sum ws ≤ fields_end at ws
fields_end_bound at [] = omega arith
fields_end_bound at (w ∷ ws) = omega (arith, fields_end_bound (align_up w at + w) ws)

-- Alignment only adds.
pub sum-le-size_of_fields : (ws : List ℕ) → sum ws ≤ size_of_fields ws
sum-le-size_of_fields ws = omega (arith, fields_end_bound 0 ws)

zeros-IsByte : (n : ℕ) → All IsByte (replicate n 0)
zeros-IsByte zero = tt
zeros-IsByte (suc n) = (omega arith, zeros-IsByte n)

module _ {T : Type 0} (r : Repr T) where
  pub length-encode : (t : T) → length (encode r t) ≡ size_of r
  unfolding encode
  length-encode t = omega (
    arith,
    length-append (pack r.widths (r.to_fields t)) (replicate (size_of r - sum r.widths) 0),
    length-pack r.widths (r.to_fields t),
    length-replicate {A = ℕ} (size_of r - sum r.widths) 0,
    sum-le-size_of_fields r.widths,
  )

  pub encode-IsByte : (t : T) → Fits r t → All IsByte (encode r t)
  unfolding encode
  encode-IsByte t h =
      All-append IsByte _ _ (pack-IsByte r.widths (r.to_fields t) h) (zeros-IsByte _)

  pub decode-encode : (t : T) → Fits r t → decode r (encode r t) ≡ t
  unfolding encode decode
  decode-encode t h =
      ap r.of_fields (unpack-pack r.widths (r.to_fields t) _ h) ∙ r.of_fields-to_fields t

  -- Numbers read from bytes fit their fields.
  pub decode-Fits : (bs : Bytes) → All IsByte bs → Fits r (decode r bs)
  unfolding decode
  decode-Fits bs h = rw (r.to_fields-of_fields bs) (unpack-AllFit r.widths bs h)
