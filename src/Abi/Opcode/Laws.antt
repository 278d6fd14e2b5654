-- ===== src/Abi/Opcode/Laws.antt =====
-- Operation codes and their numbers (fuse-abi/src/lib.rs).
use async_fuse_rs.Prelude.{
  ℕ, ◌==◌, ==_iff, Bool-cases, ◌≡◌, ◌↔◌, refl, sym, ap, ◌∙◌, arith, inl, inr, List, [], ◌∷◌, some,
  All,
}
use mathlib.Core.Option.{some-injective}
use async_fuse_rs.Abi.Opcode.{Opcode, code, arms, first_arm, try_from}

first_arm-code :
    (n : ℕ) (op : Opcode) (l : List (ℕ × Opcode))
    → All (λ (a : ℕ × Opcode). code a.1 ≡ a.0) l
    → first_arm n l ≡ some op
    → code op ≡ n
unfolding first_arm
first_arm-code n op [] h e = cc
first_arm-code n op ((k, a) ∷ l) (h, hs) e = elim (Bool-cases (n == k)) [
  | inl t ↦ ap code (sym (some-injective _ _ (rw t at e))) ∙ h ∙ sym ((==_iff n k).0 t)
  | inr f ↦ first_arm-code n op l hs (rw f at e)
]

arms_codes : All (λ (a : ℕ × Opcode). code a.1 ≡ a.0) arms
unfolding code arms
arms_codes = omega arith

pub try_from-code : (op : Opcode) → try_from (code op) ≡ some op
unfolding try_from code
try_from-code Opcode.lookup = refl
try_from-code _ = refl

-- A number is accepted exactly as the discriminant of the operation code that comes out.
pub try_from_iff : (n : ℕ) (op : Opcode) → (try_from n ≡ some op) ↔ (n ≡ code op)
unfolding try_from
try_from_iff n op = (λ e. sym (first_arm-code n op arms arms_codes e), λ e. rw e (try_from-code op))
