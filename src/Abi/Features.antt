-- ===== src/Abi/Features.antt =====
-- The configurations of the crate fuse-abi: the cargo features abi-7-9 to abi-7-19 (fuse-abi/Cargo.toml), and
-- whether it is built for macOS. Without a feature its source is the ABI 7.8 of the other modules here.
pub mod Compiled
pub mod Version
pub mod Flags
pub mod Codes
pub mod Attributes
pub mod Files
pub mod Messages
pub mod Structs
pub mod Layouts
pub mod Agreement
mod Tests
use Prim.Native.String.{String}
use async_fuse_rs.Prelude.{
  ℕ, suc, ◌^◌, ◌≤◌, ◌<◌, ◌≡◌, Bool, true, false, ◌&&◌, not, if◌then◌else◌, List, [], ◌∷◌,
}

-- `feature n` is the feature abi-7-n.
pub record Config : Type 0 where
  pub feature : ℕ → Bool
  pub macos : Bool

-- What Cargo.toml says: a feature turns on the one before it.
abbrev pub IsClosed : Config → Type 0
IsClosed c = (n : ℕ) → 9 ≤ n → n < 19 → c.feature (suc n) ≡ true → c.feature n ≡ true

-- The conditions of `cfg` attributes that occur.
pub data Gate : Type 0 where
  always on_macos : Gate
  since before not_macos_since : ℕ → Gate

abbrev pub allows : Config → Gate → Bool
allows c always = true
allows c on_macos = c.macos
allows c (since n) = c.feature n
allows c (before n) = not (c.feature n)
allows c (not_macos_since n) = c.feature n && not c.macos

-- The items that are compiled.
abbrev pub keep {ℓ} : {A : Type ℓ} → Bool → A → List A → List A
keep true a others = a ∷ others
keep false a others = others

unfoldable pub compiled {ℓ} : {A : Type ℓ} → Config → List (Gate × A) → List A
compiled c [] = []
compiled c ((g, a) ∷ rest) = keep (allows c g) a (compiled c rest)

-- The fields of a struct: name and width.
abbrev pub Fields : Type 0
Fields = List (Gate × (String × ℕ))

abbrev pub field : Gate → String → ℕ → Gate × (String × ℕ)
field g name width = (g, (name, width))

-- The flags of a field: name and value, `1 << bit`.
abbrev pub Flags : Type 0
Flags = List (Gate × (String × ℕ))

abbrev pub flag : Gate → String → ℕ → Gate × (String × ℕ)
flag g name bit = (g, (name, 2 ^ bit))

-- The build with no feature, for Linux and for macOS.
abbrev pub plain : Bool → Config
plain macos = record { feature = λ n. false; macos = macos }
