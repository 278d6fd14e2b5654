-- ===== src/Abi/Features/Compiled.antt =====
-- What holds of all items of a table holds of those that are compiled.
use async_fuse_rs.Prelude.{Bool-cases, inl, inr, List, [], ◌∷◌, All}
use async_fuse_rs.Abi.Features.{Config, Gate, allows, compiled}

pub compiled-All {ℓ κ} :
    {A : Type ℓ} (c : Config) (P : A → Type κ) (l : List (Gate × A))
    → All (λ (x : Gate × A). P x.1) l
    → All P (compiled c l)
unfolding compiled
compiled-All c P [] h = tt
compiled-All c P ((g, a) ∷ l) (h, hs) = elim (Bool-cases (allows c g)) [
  | inl t ↦ rw t (h, compiled-All c P l hs)
  | inr f ↦ rw f (compiled-All c P l hs)
]
