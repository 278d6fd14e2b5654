-- ===== src/Abi/Features/Codes/Laws.antt =====
-- Which codes are accepted in a configuration (fuse-abi/src/lib.rs).
use async_fuse_rs.Prelude.{
  ℕ, ◌==◌, ==_iff, Bool-cases, ◌&&◌, true, ◌≡◌, ◌↔◌, refl, sym, ap, ◌∙◌, inl, inr, List, [], ◌∷◌,
  some, All, map-All,
}
use mathlib.Core.Bool.{and-eq-true_iff}
use mathlib.Core.Option.{some-injective}
use async_fuse_rs.Abi.Features.{Gate, Config, allows}
use async_fuse_rs.Abi.Features.Codes.{
  AnyOpcode, NotifyCode, opcode_variant, opcode_arms, opcode_try_from, notify_variant, notify_arms,
  notify_try_from, match_number,
}

module _ {A : Type 0} (variant : A → Gate × ℕ) (c : Config) where
  -- Each arm has the condition and the number of its variant.
  abbrev AreVariants : List (Gate × ℕ × A) → Type 0
  AreVariants arms = All (λ (t : Gate × ℕ × A). variant t.2 ≡ (t.0, t.1)) arms

  match_number-variant :
      (n : ℕ) (a : A) (arms : List (Gate × ℕ × A))
      → AreVariants arms
      → match_number c n arms ≡ some a
      → (allows c (variant a).0 ≡ true) × (n ≡ (variant a).1)
  unfolding match_number
  match_number-variant n a [] h e = cc
  match_number-variant n a ((g, k, b) ∷ arms) (h, hs) e = elim (Bool-cases (n == k && allows c g)) [
    | inr f ↦ match_number-variant n a arms hs (rw f at e)
    | inl t ↦
        let same : b ≡ a = some-injective _ _ (rw t at e) in
        let both : ((n == k) ≡ true) × (allows c g ≡ true) = (and-eq-true_iff _ _).0 t in
        (
          ap (λ x. allows c (variant x).0) (sym same)
              ∙ ap (λ (v : Gate × ℕ). allows c v.0) h
              ∙ both.1,
          (==_iff n k).0 both.0
              ∙ sym (ap (λ x. (variant x).1) (sym same) ∙ ap (λ (v : Gate × ℕ). v.1) h),
        )
  ]

opcode_arms-AreVariants : (c : Config) → AreVariants opcode_variant c opcode_arms
opcode_arms-AreVariants c = map-All (λ t. opcode_variant t.2) (λ t. (t.0, t.1)) opcode_arms refl

notify_arms-AreVariants : (c : Config) → AreVariants notify_variant c notify_arms
notify_arms-AreVariants c = map-All (λ t. notify_variant t.2) (λ t. (t.0, t.1)) notify_arms refl

opcode_try_from-variant :
    (c : Config) (op : AnyOpcode)
    → allows c (opcode_variant op).0 ≡ true
    → opcode_try_from c (opcode_variant op).1 ≡ some op
unfolding opcode_try_from match_number
opcode_try_from-variant c AnyOpcode.ioctl e = rw e refl
opcode_try_from-variant c AnyOpcode.poll e = rw e refl
opcode_try_from-variant c AnyOpcode.notify_reply e = rw e refl
opcode_try_from-variant c AnyOpcode.batch_forget e = rw e refl
opcode_try_from-variant c AnyOpcode.fallocate e = rw e refl
opcode_try_from-variant c AnyOpcode.setvolname e = rw e refl
opcode_try_from-variant c AnyOpcode.getxtimes e = rw e refl
opcode_try_from-variant c AnyOpcode.exchange e = rw e refl
opcode_try_from-variant c AnyOpcode.cuse_init e = rw e refl
opcode_try_from-variant c _ e = refl

notify_try_from-variant :
    (c : Config) (code : NotifyCode)
    → allows c (notify_variant code).0 ≡ true
    → notify_try_from c (notify_variant code).1 ≡ some code
unfolding notify_try_from match_number
notify_try_from-variant c NotifyCode.notify_poll e = rw e refl
notify_try_from-variant c NotifyCode.notify_inval_inode e = rw e refl
notify_try_from-variant c NotifyCode.notify_inval_entry e = rw e refl
notify_try_from-variant c NotifyCode.notify_store e = rw e refl
notify_try_from-variant c NotifyCode.notify_retrieve e = rw e refl
notify_try_from-variant c NotifyCode.notify_delete e = rw e refl

-- In every configuration a number is accepted as an operation code exactly if a variant with this
-- discriminant is compiled, and it is that variant that comes out; the same holds of the notification
-- codes.
pub codes_iff :
    (c : Config) (n : ℕ)
    → ((op : AnyOpcode)
        → (opcode_try_from c n ≡ some op)
          ↔ ((allows c (opcode_variant op).0 ≡ true) × (n ≡ (opcode_variant op).1)))
      × ((code : NotifyCode)
          → (notify_try_from c n ≡ some code)
            ↔ ((allows c (notify_variant code).0 ≡ true) × (n ≡ (notify_variant code).1)))
unfolding opcode_try_from notify_try_from
codes_iff c n = (
  λ op. (
    match_number-variant opcode_variant c n op opcode_arms (opcode_arms-AreVariants c),
    λ h. rw h.1 (opcode_try_from-variant c op h.0),
  ),
  λ code. (
    match_number-variant notify_variant c n code notify_arms (notify_arms-AreVariants c),
    λ h. rw h.1 (notify_try_from-variant c code h.0),
  ),
)
