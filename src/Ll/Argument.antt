-- ===== src/Ll/Argument.antt =====
-- Argument decomposition (src/ll/argument.rs). Every method takes the iterator and returns it as the
-- method leaves it, on failure too. A string (`OsStr`) is the list of its bytes.
pub mod Laws
use async_fuse_rs.Prelude.{
  ℕ, suc, ◌==◌, ltb, if◌then◌else◌, List, [], ◌∷◌, Option, none, some, length, take, drop,
}
use mathlib.Core.Option
use async_fuse_rs.Bytes.{Bytes}
use async_fuse_rs.Abi.Layout.{Repr, size_of, decode}

pub record ArgumentIterator : Type 0 where
  pub bytes : Bytes

-- A method that may fail, and moves the iterator.
abbrev pub Fetch : Type 0 → Type 0
Fetch A = ArgumentIterator → Option A × ArgumentIterator

abbrev pub pure : {A : Type 0} → A → Fetch A
pure a it = (some a, it)

-- The operator `?` behind a call: a failure ends the caller, with the iterator as it is then.
abbrev pub after :
    {A B : Type 0} → Option A × ArgumentIterator → (A → Fetch B) → Option B × ArgumentIterator
after (none, it) f = (none, it)
after (some a, it) f = f a it

infixl 5 ◌>>=◌
abbrev pub ◌>>=◌ : {A B : Type 0} → Fetch A → (A → Fetch B) → Fetch B
◌>>=◌ m f it = after (m it) f

unfoldable pub new : Bytes → ArgumentIterator
new bytes = record { bytes = bytes }

unfoldable pub len : ArgumentIterator → ℕ
len it = length it.bytes

unfoldable pub fetch_all : Fetch Bytes
fetch_all it = (some it.bytes, record it { bytes = [] })

unfoldable pub fetch_bytes : ℕ → Fetch Bytes
fetch_bytes amt it =
    if ltb (length it.bytes) amt
    then (none, it)
    else (some (take amt it.bytes), record it { bytes = drop amt it.bytes })

unfoldable pub fetch : {T : Type 0} → Repr T → Fetch T
fetch r = do bytes ← fetch_bytes (size_of r); pure (decode r bytes)

-- `iter().position(|&c| c == 0)`.
unfoldable pub position_zero : Bytes → Option ℕ
position_zero [] = none
position_zero (c ∷ cs) = if c == 0 then some 0 else Option.map suc (position_zero cs)

-- The string up to the zero at `len`, and the zero itself.
unfoldable pub fetch_str_at : ℕ → Fetch Bytes
fetch_str_at len = do bytes ← fetch_bytes len; zero ← fetch_bytes 1; pure bytes

unfoldable pub fetch_str : Fetch Bytes
unfolding fetch_str_at
fetch_str it = elim (position_zero it.bytes) [ none ↦ (none, it) | some len ↦ fetch_str_at len it ]
