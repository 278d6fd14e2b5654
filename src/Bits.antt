-- ===== src/Bits.antt =====
-- Arithmetic forms of the bit operations that the program uses: `kind | perm` on fields that do not
-- overlap (src/reply.rs), and `flags & (1 << k)` (src/request.rs).
use Prim.Native.Nat.{max, digits, bit_or-bitwise, bit_and-bitwise}
use native.Mathlib.Nat.{pow-suc, div-div-eq-div-mul}
use async_fuse_rs.Prelude.{
  ℕ, zero, suc, ◌+◌, ◌*◌, ◌/◌, ◌%◌, ◌^◌, ◌≤◌, ◌<◌, ◌≡◌, refl, ap, ◌∙◌, subst, arith, bit_and,
  bit_or, min,
}

-- Once the count of digits covers the first number, more of it changes nothing.
or_count :
    (fuel more : ℕ) (left right : ℕ)
    → left ≤ fuel
    → left ≤ more
    → digits (λ y. y) max fuel left right ≡ digits (λ y. y) max more left right
or_count zero zero left right p q = refl
or_count zero (suc more) zero right p q = refl
or_count (suc fuel) zero zero right p q = refl
or_count (suc fuel) (suc more) zero right p q = refl
or_count zero more (suc left) right p q = absurd (omega arith)
or_count (suc fuel) zero (suc left) right p q = absurd (omega arith)
or_count (suc fuel) (suc more) (suc left) right p q =
    omega (arith, or_count fuel more (suc left / 2) (right / 2) (omega arith) (omega arith))

and_count :
    (fuel more : ℕ) (left right : ℕ)
    → left ≤ fuel
    → left ≤ more
    → digits (λ _. zero) min fuel left right ≡ digits (λ _. zero) min more left right
and_count zero zero left right p q = refl
and_count zero (suc more) zero right p q = refl
and_count (suc fuel) zero zero right p q = refl
and_count (suc fuel) (suc more) zero right p q = refl
and_count zero more (suc left) right p q = absurd (omega arith)
and_count (suc fuel) zero (suc left) right p q = absurd (omega arith)
and_count (suc fuel) (suc more) (suc left) right p q =
    omega (arith, and_count fuel more (suc left / 2) (right / 2) (omega arith) (omega arith))

or_step :
    (left right : ℕ)
    → bit_or left right ≡ max (left % 2) (right % 2) + 2 * bit_or (left / 2) (right / 2)
or_step zero right = omega (arith, bit_or-bitwise 0 right, bit_or-bitwise 0 (right / 2))
or_step (suc left) right = omega (
  arith,
  bit_or-bitwise (suc left) right,
  bit_or-bitwise (suc left / 2) (right / 2),
  or_count left (suc left / 2) (suc left / 2) (right / 2) (omega arith) (omega arith),
)

and_step :
    (left right : ℕ)
    → bit_and left right ≡ min (left % 2) (right % 2) + 2 * bit_and (left / 2) (right / 2)
and_step zero right = omega (arith, bit_and-bitwise 0 right, bit_and-bitwise 0 (right / 2))
and_step (suc left) right = omega (
  arith,
  bit_and-bitwise (suc left) right,
  bit_and-bitwise (suc left / 2) (right / 2),
  and_count left (suc left / 2) (suc left / 2) (right / 2) (omega arith) (omega arith),
)

or_nothing_count : (n a : ℕ) → a ≤ n → bit_or a 0 ≡ a
or_nothing_count n zero h = refl
or_nothing_count zero (suc a) h = absurd (omega arith)
or_nothing_count (suc n) (suc a) h =
    omega (arith, or_step (suc a) 0, or_nothing_count n (suc a / 2) (omega arith))

and_nothing_count : (n a : ℕ) → a ≤ n → bit_and a 0 ≡ 0
and_nothing_count n zero h = refl
and_nothing_count zero (suc a) h = absurd (omega arith)
and_nothing_count (suc n) (suc a) h =
    omega (arith, and_step (suc a) 0, and_nothing_count n (suc a / 2) (omega arith))

shifted : (q k : ℕ) → q * 2 ^ suc k ≡ q * 2 ^ k * 2
shifted q k = omega (arith, ap (λ (t : ℕ). q * t) (pow-suc 2 k))

-- A number below `2 ^ k`, joined to a multiple of it, is added.
pub bit_or_disjoint : (k q r : ℕ) → r < 2 ^ k → bit_or (q * 2 ^ k) r ≡ q * 2 ^ k + r
bit_or_disjoint zero q r h = ground (arith, or_nothing_count q q)
bit_or_disjoint (suc k) q r h = ground (
  arith,
  or_step (q * 2 ^ suc k) r,
  shifted q k,
  bit_or_disjoint k q (r / 2) (omega (arith, pow-suc 2 k)),
)

halves_power : (k a : ℕ) → a / 2 / 2 ^ k ≡ a / 2 ^ suc k
halves_power k a =
    div-div-eq-div-mul a 2 (2 ^ k) ∙ ap (λ (t : ℕ). a / t) (omega (arith, pow-suc 2 k))

half_power : (k : ℕ) → 2 ^ k ≡ 2 ^ suc k / 2
half_power k = omega (arith, pow-suc 2 k)

-- The mask of one bit.
pub bit_and_flag : (k a : ℕ) → bit_and a (2 ^ k) ≡ a / 2 ^ k % 2 * 2 ^ k
bit_and_flag zero a = omega (arith, and_step a 1, and_nothing_count (a / 2) (a / 2))
bit_and_flag (suc k) a = omega (
  arith,
  and_step a (2 ^ suc k),
  pow-suc 2 k,
  halves_power k a,
  subst (λ (t : ℕ). bit_and (a / 2) (2 ^ k) ≡ t % 2 * 2 ^ k) (halves_power k a)
      (bit_and_flag k (a / 2)),
  subst (λ (t : ℕ). bit_and (a / 2) t ≡ bit_and (a / 2) (2 ^ k)) (half_power k) refl,
  shifted (a / 2 ^ suc k % 2) k,
)
