-- ===== src/Abi/Features/Version.antt =====
-- The minor version (`FUSE_KERNEL_MINOR_VERSION` of fuse-abi/src/lib.rs) of each configuration.
use native.Mathlib.Decide.{dec_le}
use async_fuse_rs.Prelude.{
  ℕ, zero, suc, ◌+◌, ◌≤◌, ◌<◌, ◌≡◌, ◌↔◌, refl, subst, arith, Bool, true, false, Bool-cases, ◌&&◌,
  not, if◌then◌else◌, inl, inr, List, [], ◌∷◌,
}
use async_fuse_rs.Abi.Features.{Config, IsClosed}

abbrev pub fuse_kernel_version : ℕ
fuse_kernel_version = 7

-- Declarations of one constant, each with the condition under which it is compiled.
abbrev select : List (Bool × ℕ) → List ℕ
select [] = []
select ((condition, value) ∷ rest) =
    let others = select rest in if condition then value ∷ others else others

unfoldable pub fuse_kernel_minor_version : Config → List ℕ
fuse_kernel_minor_version c = select (
    (not (c.feature 9), 8)
    ∷ (c.feature 9 && not (c.feature 10), 9)
    ∷ (c.feature 10 && not (c.feature 11), 10)
    ∷ (c.feature 11 && not (c.feature 12), 11)
    ∷ (c.feature 12 && not (c.feature 13), 12)
    ∷ (c.feature 13 && not (c.feature 14), 13)
    ∷ (c.feature 14 && not (c.feature 15), 14)
    ∷ (c.feature 15 && not (c.feature 16), 15)
    ∷ (c.feature 16 && not (c.feature 17), 16)
    ∷ (c.feature 17 && not (c.feature 18), 17)
    ∷ (c.feature 18 && not (c.feature 19), 18)
    ∷ (c.feature 19, 19)
    ∷ [])

-- The declarations from version `n` on, of which `k` have a condition on the next feature too.
abbrev rows : Config → ℕ → ℕ → List (Bool × ℕ)
rows c n zero = (c.feature n, n) ∷ []
rows c n (suc k) = (c.feature n && not (c.feature (suc n)), n) ∷ rows c (suc n) k

abbrev versions : Config → ℕ → ℕ → List ℕ
versions c n k = select (rows c n k)

module _ (c : Config) (h : IsClosed c) where
  off_above : (m n : ℕ) → 9 ≤ n → n ≤ m → m ≤ 19 → c.feature n ≡ false → c.feature m ≡ false
  off_above zero n p q r e = absurd (omega arith)
  off_above (suc m) n p q r e = elim (dec_le n m) [
    | no last ↦ subst (λ i. c.feature i ≡ false) (omega arith) e
    | yes below ↦ elim (Bool-cases (c.feature (suc m))) [
      | inr off ↦ off
      | inl on ↦
          let on' : c.feature m ≡ true = h m (omega arith) (omega arith) on in
          let off : c.feature m ≡ false = off_above m n p below (omega arith) e in cc
    ]
  ]

  pub on_below : (m n : ℕ) → 9 ≤ n → n ≤ m → m ≤ 19 → c.feature m ≡ true → c.feature n ≡ true
  on_below m n p q r e = elim (Bool-cases (c.feature n)) [
    | inl on ↦ on
    | inr off ↦ let off' : c.feature m ≡ false = off_above m n p q r off in cc
  ]

  versions_off : (k n : ℕ) → 9 ≤ n → n + k ≡ 19 → c.feature n ≡ false → versions c n k ≡ []
  versions_off zero n p q e = rw e refl
  versions_off (suc k) n p q e =
      rw
        (
          e,
          versions_off k (suc n) (omega arith) (omega arith)
              (off_above (suc n) n p (omega arith) (omega arith) e),
        )
        refl

  -- One version is left, which is on, and all features above it are off.
  abbrev IsLast : ℕ → ℕ → List ℕ → Type 0
  IsLast n m found =
      (found ≡ m ∷ [])
      × (n ≤ m)
      × (m ≤ 19)
      × (c.feature m ≡ true)
      × ((j : ℕ) → m < j → j ≤ 19 → c.feature j ≡ false)

  versions_on :
      (k n : ℕ) → 9 ≤ n → n + k ≡ 19 → c.feature n ≡ true → (m : ℕ) × IsLast n m (versions c n k)
  versions_on zero n p q e =
      (n, (rw e refl, omega arith, omega arith, e, λ j r s. absurd (omega arith)))
  versions_on (suc k) n p q e = elim (Bool-cases (c.feature (suc n))) [
    | inl on ↦
        let (m, (found, low, high, last, above)) =
          versions_on k (suc n) (omega arith) (omega arith) on in
        (m, (rw (e, on) found, omega arith, high, last, above))
    | inr off ↦ (
      n,
      (
        rw (e, off, versions_off k (suc n) (omega arith) (omega arith) off) refl,
        omega arith,
        omega arith,
        e,
        λ j r s. off_above j (suc n) (omega arith) r s off,
      ),
    )
  ]

  -- If every feature turns on the one before it, exactly one of the declarations of the minor version is
  -- compiled, its number is from 8 to 19, and a feature is on exactly if its number is not above that.
  pub minor_version :
      (m : ℕ) × (fuse_kernel_minor_version c ≡ m ∷ [])
      × (8 ≤ m)
      × (m ≤ 19)
      × ((n : ℕ) → 9 ≤ n → n ≤ 19 → (c.feature n ≡ true) ↔ (n ≤ m))
  unfolding fuse_kernel_minor_version
  minor_version = elim (Bool-cases (c.feature 9)) [
    | inr off ↦ (
      8,
      rw
          (
            off,
            versions_off 9 10 (omega arith) refl
                (off_above 10 9 (omega arith) (omega arith) (omega arith) off),
          )
          refl,
      omega arith,
      omega arith,
      λ n p q. (
        λ on. let off' : c.feature n ≡ false = off_above n 9 (omega arith) p q off in cc,
        λ low. absurd (omega arith),
      ),
    )
    | inl on ↦
        let (m, (found, low, high, last, above)) = versions_on 10 9 (omega arith) refl on in
        (
          m,
          rw on (rw on at found),
          omega arith,
          high,
          λ n p q. (
            λ e. elim (dec_le n m) [
              | yes small ↦ small
              | no large ↦ let off' : c.feature n ≡ false = above n (omega arith) q in cc
            ],
            λ small. on_below m n p small high last,
          ),
        )
  ]
