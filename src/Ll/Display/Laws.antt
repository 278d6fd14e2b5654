-- ===== src/Ll/Display/Laws.antt =====
-- What can be read back from the log line of a request (src/ll/request.rs).
use async_fuse_rs.Prelude.{
  ℕ, zero, suc, ◌+◌, ◌-◌, ◌*◌, ◌/◌, ◌%◌, ◌≤◌, ◌<◌, ◌≡◌, refl, ap, ◌∙◌, arith, ltb, Bool-cases, inl,
  inr, if◌then◌else◌, [], ◌∷◌, ◌++◌, length, length-append, length-replicate, replicate,
}
use async_fuse_rs.Bytes.{Bytes, u64_mod}
use async_fuse_rs.Ll.Request.{Request}
use async_fuse_rs.Ll.Display.{
  ascii, digit, digits, pad, decimal, display_operation, display_request,
}

-- What a digit stands for; a space stands for nothing.
abbrev pub worth : ℕ → ℕ
worth c = if ltb c 48 then 0 else if ltb c 58 then c - 48 else c - 87

-- The number that digits stand for, with `n` in front of them.
abbrev pub number_from : ℕ → ℕ → Bytes → ℕ
number_from base n [] = n
number_from base n (c ∷ cs) = number_from base (n * base + worth c) cs

abbrev pub number : ℕ → Bytes → ℕ
number base cs = number_from base 0 cs

worth-digit : (d : ℕ) → d < 16 → worth (digit d) ≡ d
worth-digit d h = ground arith

number_from-append :
    (base n : ℕ) (cs ds : Bytes)
    → number_from base n (cs ++ ds) ≡ number_from base (number_from base n cs) ds
number_from-append base n [] ds = refl
number_from-append base n (c ∷ cs) ds = number_from-append base (n * base + worth c) cs ds

-- Fillers in front change nothing.
number_from-filler :
    (base k filler n : ℕ) (cs : Bytes)
    → worth filler ≡ 0
    → n ≡ 0
    → number_from base n (replicate k filler ++ cs) ≡ number base cs
number_from-filler base zero filler n cs h z = ap (λ m. number_from base m cs) z
number_from-filler base (suc k) filler n cs h z =
    number_from-filler base k filler (n * base + worth filler) cs h (rw (z, h) (omega arith))

-- The first number that has more digits.
abbrev limit : ℕ → ℕ → ℕ
limit base zero = 1
limit base (suc k) = base * limit base k

record IsBase (base : ℕ) : Type 0 where
  pub divided : (n : ℕ) → n / base * base + n % base ≡ n
  pub last : (n : ℕ) → n % base < 16
  pub single : (n : ℕ) → n < base → n < 16
  pub shorter : (n m : ℕ) → n < base * m → n / base < m
  pub fits : 0 < base

ten-IsBase : IsBase 10
ten-IsBase = record {
  divided = λ n. omega arith;
  last = λ n. omega arith;
  single = λ n h. omega arith;
  shorter = λ n m h. omega arith;
  fits = omega arith;
}

sixteen-IsBase : IsBase 16
sixteen-IsBase = record {
  divided = λ n. omega arith;
  last = λ n. omega arith;
  single = λ n h. omega arith;
  shorter = λ n m h. omega arith;
  fits = omega arith;
}

module _ (base : ℕ) (b : IsBase base) where
  number-digits : (fuel n : ℕ) → n < limit base (suc fuel) → number base (digits fuel base n) ≡ n
  unfolding digits
  number-digits zero n h =
      let none_left : n / base ≡ 0 = omega (arith, b.shorter n 1 h) in
      omega (arith, worth-digit (n % base) (b.last n), rw none_left at (b.divided n))
  number-digits (suc fuel) n h = elim (Bool-cases (ltb n base)) [
    | inl small ↦ rw small (omega (arith, worth-digit n (b.single n (ground (arith, small)))))
    | inr big ↦ rw big (
        number_from-append base 0 (digits fuel base (n / base)) (digit (n % base) ∷ [])
        ∙ rw
            (
              number-digits fuel (n / base) (b.shorter n (limit base (suc fuel)) h),
              worth-digit (n % base) (b.last n),
            )
            (b.divided n))
  ]

  length-digits : (fuel k n : ℕ) → n < limit base (suc k) → length (digits fuel base n) ≤ suc k
  unfolding digits
  length-digits zero k n h = omega arith
  length-digits (suc fuel) zero n h = elim (Bool-cases (ltb n base)) [
    | inl small ↦ rw small (omega arith)
    | inr big ↦ absurd (ground (arith, big, h))
  ]
  length-digits (suc fuel) (suc k) n h = elim (Bool-cases (ltb n base)) [
    | inl small ↦ rw small (omega arith)
    | inr big ↦ rw big (
        omega (
          arith,
          length-append (digits fuel base (n / base)) (digit (n % base) ∷ []),
          length-digits fuel k (n / base) (b.shorter n (limit base (suc k)) h),
        ))
  ]

-- The line of a request shows its id in decimal, filled up with spaces, and its inode with sixteen
-- hexadecimal digits, from which both numbers can be read back if they have 64 bits; then comes the line
-- of its operation.
pub display_request-number :
    (quoted : Bytes → Bytes) (r : Request)
    → r.header.unique < u64_mod
    → r.header.nodeid < u64_mod
    → (id inode : Bytes) × (display_request quoted r
        ≡ ascii "FUSE("
          ++ id
          ++ ascii ") ino "
          ++ (ascii "0x" ++ inode)
          ++ ascii ": "
          ++ display_operation quoted r.operation)
      × (number 10 id ≡ r.header.unique)
      × (length inode ≡ 16)
      × (number 16 inode ≡ r.header.nodeid)
unfolding display_request
display_request-number quoted r hu hn =
    let text : Bytes = digits 63 16 r.header.nodeid in
    (
      pad 3 32 (decimal r.header.unique),
      pad 16 48 text,
      refl,
      number_from-filler 10 (3 - length (decimal r.header.unique)) 32 0 (decimal r.header.unique)
            refl refl
          ∙ number-digits 10 ten-IsBase 63 r.header.unique (omega arith),
      omega (
        arith,
        length-append (replicate (16 - length text) 48) text,
        length-replicate {A = ℕ} (16 - length text) 48,
        length-digits 16 sixteen-IsBase 63 15 r.header.nodeid (omega arith),
      ),
      number_from-filler 16 (16 - length text) 48 0 text refl refl
          ∙ number-digits 16 sixteen-IsBase 63 r.header.nodeid (omega arith),
    )
