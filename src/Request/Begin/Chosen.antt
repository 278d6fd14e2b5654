-- ===== src/Request/Begin/Chosen.antt =====
-- Which of the kernel's attributes a setattr passes on, and when their times make it panic
-- (src/request.rs).
use native.Mathlib.Nat.{pow-suc}
use async_fuse_rs.Prelude.{
  ℕ, zero, suc, ◌+◌, ◌*◌, ◌/◌, ◌%◌, ◌^◌, ◌≤◌, ◌<◌, ◌≡◌, ◌↔◌, ◌⊎◌, inl, inr, refl, arith, ◌==◌, ltb,
  if◌then◌else◌, true, false, Bool-cases, Option, none, some, bit_and, ◌>>=◌,
}
use async_fuse_rs.Bits.{bit_and_flag}
use async_fuse_rs.Libc.{Libc}
use async_fuse_rs.FileAttr.{SystemTime, after_epoch}
use async_fuse_rs.Abi.Requests.{FuseSetattrIn}
use async_fuse_rs.Filesystem.{AttrChange}
use async_fuse_rs.Request.Begin.Arguments.{if_valid, time_of, time_if_valid, attr_change}

-- Bit `k` of a number.
abbrev pub HasBit : ℕ → ℕ → Type 0
HasBit valid k = valid / 2 ^ k % 2 ≡ 1

-- The time is too far from the epoch to be held.
abbrev pub Overflows : Libc → ℕ → ℕ → Type 0
Overflows libc secs nanos = libc.time_limit ≤ secs + nanos / 1_000_000_000

power_positive : (k : ℕ) → 1 ≤ 2 ^ k
power_positive zero = omega arith
power_positive (suc k) = omega (arith, power_positive k, pow-suc 2 k)

product-cases :
    (bit p : ℕ)
    → bit < 2
    → 1 ≤ p
    → ((bit ≡ 1) × ((bit * p == 0) ≡ false)) ⊎ ((bit ≡ 0) × ((bit * p == 0) ≡ true))
product-cases zero p b h = inr (refl, ground arith)
product-cases (suc zero) p b h = inl (refl, ground arith)
product-cases (suc (suc bit)) p b h = absurd (omega arith)

bit_test-cases :
    (valid k : ℕ)
    → (HasBit valid k × ((bit_and valid (2 ^ k) == 0) ≡ false))
      ⊎ ((valid / 2 ^ k % 2 ≡ 0) × ((bit_and valid (2 ^ k) == 0) ≡ true))
bit_test-cases valid k =
    rw (bit_and_flag k valid)
      (product-cases (valid / 2 ^ k % 2) (2 ^ k) (omega arith) (power_positive k))

time_if_valid-cases :
    (libc : Libc) (valid k secs nanos : ℕ)
    → ((HasBit valid k × Overflows libc secs nanos)
        × (time_if_valid libc valid (2 ^ k) secs nanos ≡ none))
      ⊎ (((HasBit valid k × Overflows libc secs nanos) → ⊥)
          × ((t : Option SystemTime) × (time_if_valid libc valid (2 ^ k) secs nanos ≡ some t)))
unfolding time_if_valid time_of
time_if_valid-cases libc valid k secs nanos = elim (bit_test-cases valid k) [
  | inr (clear, test) ↦ inr (λ h. omega (arith, h.0, clear), (none, rw test refl))
  | inl (set, test) ↦ elim (Bool-cases (ltb (secs + nanos / 1_000_000_000) libc.time_limit)) [
    | inl holds ↦ inr (
      λ h. ground (arith, h.1, holds),
      (
        some (
            after_epoch
              (record { secs = secs + nanos / 1_000_000_000; nanos = nanos % 1_000_000_000 })),
        rw (test, holds) refl,
      ),
    )
    | inr fails ↦ inl ((set, ground (arith, fails)), rw (test, fails) refl)
  ]
]

-- A setattr panics exactly if one of its two times is to be set and cannot be held.
pub attr_change-none_iff :
    (libc : Libc) (arg : FuseSetattrIn)
    → (attr_change libc arg ≡ none) ↔ (
        (HasBit arg.valid 4 × Overflows libc arg.atime arg.atimensec)
        ⊎ (HasBit arg.valid 5 × Overflows libc arg.mtime arg.mtimensec))
unfolding attr_change
attr_change-none_iff libc arg =
    elim (time_if_valid-cases libc arg.valid 4 arg.atime arg.atimensec) [
      | inl (late, panics) ↦ (λ _. inl late, λ _. rw panics refl)
      | inr (fine, (t, kept)) ↦
          elim (time_if_valid-cases libc arg.valid 5 arg.mtime arg.mtimensec) [
            | inl (late, panics) ↦ (λ _. inr late, λ _. rw (kept, panics) refl)
            | inr (fine', (t', kept')) ↦ (
              λ e. absurd (let e' = rw (kept, kept') at e in cc e'),
              λ h. elim h [ inl late ↦ absurd (fine late) | inr late ↦ absurd (fine' late) ],
            )
          ]
    ]

-- The kernel's value of a field, if its bit is set.
abbrev pub chosen : {A : Type 0} → ℕ → ℕ → A → Option A
chosen valid k value = if valid / 2 ^ k % 2 == 1 then some value else none

pub if_valid-chosen :
    {A : Type 0} (valid k : ℕ) (value : A) → if_valid valid (2 ^ k) value ≡ chosen valid k value
unfolding if_valid
if_valid-chosen valid k value = elim (bit_test-cases valid k) [
  | inl (set, test) ↦ rw (test, set) refl
  | inr (clear, test) ↦ rw (test, clear) refl
]

-- The kernel's time, with whole seconds among its nanoseconds carried, if its bit is set.
abbrev pub chosen_time : ℕ → ℕ → ℕ → ℕ → Option SystemTime
chosen_time valid k secs nanos =
    chosen valid k
      (after_epoch (record { secs = secs + nanos / 1_000_000_000; nanos = nanos % 1_000_000_000 }))

pub time_if_valid-chosen :
    (libc : Libc) (valid k secs nanos : ℕ) (t : Option SystemTime)
    → time_if_valid libc valid (2 ^ k) secs nanos ≡ some t
    → t ≡ chosen_time valid k secs nanos
unfolding time_if_valid time_of
time_if_valid-chosen libc valid k secs nanos t e = elim (bit_test-cases valid k) [
  | inr (clear, test) ↦ let e' = rw test at e in rw clear (cc e')
  | inl (set, test) ↦ elim (Bool-cases (ltb (secs + nanos / 1_000_000_000) libc.time_limit)) [
    | inl holds ↦ let e' = rw (test, holds) at e in rw set (cc e')
    | inr fails ↦ let e' = rw (test, fails) at e in absurd (cc e')
  ]
]

-- What a bind that succeeds went through.
pub bind-inversion :
    {A B : Type 0} (o : Option A) (f : A → Option B) (b : B)
    → (o >>= f) ≡ some b
    → (a : A) × (o ≡ some a) × (f a ≡ some b)
bind-inversion none f b e = absurd (cc e)
bind-inversion (some a) f b e = (a, refl, e)

-- Each attribute is as the kernel chose it, and those of macOS are absent.
abbrev pub IsChosen : FuseSetattrIn → AttrChange → Type 0
IsChosen arg change =
    (change.mode ≡ chosen arg.valid 0 arg.mode)
    × (change.uid ≡ chosen arg.valid 1 arg.uid)
    × (change.gid ≡ chosen arg.valid 2 arg.gid)
    × (change.size ≡ chosen arg.valid 3 arg.size)
    × (change.atime ≡ chosen_time arg.valid 4 arg.atime arg.atimensec)
    × (change.mtime ≡ chosen_time arg.valid 5 arg.mtime arg.mtimensec)
    × (change.fh ≡ chosen arg.valid 6 arg.fh)
    × (change.crtime ≡ none)
    × (change.chgtime ≡ none)
    × (change.bkuptime ≡ none)
    × (change.flags ≡ none)

-- A setattr that is passed on has each of its seven attributes exactly if the kernel set its bit, with the
-- kernel's value, where in a time whole seconds among the nanoseconds are carried; and it has none of the
-- attributes of macOS.
pub attr_change-IsChosen :
    (libc : Libc) (arg : FuseSetattrIn) (change : AttrChange)
    → attr_change libc arg ≡ some change
    → IsChosen arg change
unfolding attr_change
attr_change-IsChosen libc arg change e =
    let (at, eat, e1) = bind-inversion _ _ change e in
    let (mt, emt, e2) = bind-inversion _ _ change e1 in
    let pat = time_if_valid-chosen libc arg.valid 4 arg.atime arg.atimensec at eat in
    let pmt = time_if_valid-chosen libc arg.valid 5 arg.mtime arg.mtimensec mt emt in
    let pmode = if_valid-chosen arg.valid 0 arg.mode in
    let puid = if_valid-chosen arg.valid 1 arg.uid in
    let pgid = if_valid-chosen arg.valid 2 arg.gid in
    let psize = if_valid-chosen arg.valid 3 arg.size in
    let pfh = if_valid-chosen arg.valid 6 arg.fh in (cc, cc, cc, cc, cc, cc, cc, cc, cc, cc, cc)
