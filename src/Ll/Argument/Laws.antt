-- ===== src/Ll/Argument/Laws.antt =====
-- What the methods of the argument iterator (src/ll/argument.rs) take and what they leave.
use async_fuse_rs.Prelude.{
  ℕ, ◌≤◌, ◌<◌, ◌≡◌, ◌≢◌, ◌↔◌, ◌⊎◌, inl, inr, refl, sym, ap, ◌∙◌, arith, lt→ltb, le→ltb, ◌==◌,
  ==_iff, ==_ne, Bool-cases, false, [], ◌∷◌, ◌++◌, none, some, length, length-append, take, drop,
  take-append, drop-append, All,
}
use async_fuse_rs.Bytes.{Bytes}
use async_fuse_rs.Abi.Layout.{Repr, size_of, encode, decode, Fits}
use async_fuse_rs.Abi.Layout.Laws.{length-encode, decode-encode}
use async_fuse_rs.Ll.Argument.{ArgumentIterator, fetch_bytes, fetch, position_zero, fetch_str}

abbrev pub at : Bytes → ArgumentIterator
at bytes = record { bytes = bytes }

-- No byte of a string is the terminator.
abbrev pub NoZero : Bytes → Type 0
NoZero = All (λ c. c ≢ 0)

pub fetch_bytes-append :
    (n : ℕ) (xs rest : Bytes) → length xs ≡ n → fetch_bytes n (at (xs ++ rest)) ≡ (some xs, at rest)
unfolding fetch_bytes
fetch_bytes-append n xs rest h = rw (
  le→ltb (length (xs ++ rest)) n (omega (arith, length-append xs rest)),
  take-append n xs rest h,
  drop-append n xs rest h,
)

pub fetch_bytes_short :
    (n : ℕ) (it : ArgumentIterator) → length it.bytes < n → fetch_bytes n it ≡ (none, it)
unfolding fetch_bytes
fetch_bytes_short n it h = rw (lt→ltb (length it.bytes) n h)

-- What `encode` wrote, `fetch` takes off the front.
pub fetch-encode :
    {T : Type 0} (r : Repr T) (t : T) (rest : Bytes)
    → Fits r t
    → fetch r (at (encode r t ++ rest)) ≡ (some t, at rest)
unfolding fetch
fetch-encode r t rest h =
    rw (fetch_bytes-append (size_of r) (encode r t) rest (length-encode r t))
      (rw (decode-encode r t h))

pub fetch_short :
    {T : Type 0} (r : Repr T) (it : ArgumentIterator)
    → length it.bytes < size_of r
    → fetch r it ≡ (none, it)
unfolding fetch
fetch_short r it h = rw (fetch_bytes_short (size_of r) it h)

pub fetch_enough :
    {T : Type 0} (r : Repr T) (it : ArgumentIterator)
    → size_of r ≤ length it.bytes
    → fetch r it ≡ (some (decode r (take (size_of r) it.bytes)), at (drop (size_of r) it.bytes))
unfolding fetch fetch_bytes
fetch_enough r it h = rw (le→ltb (length it.bytes) (size_of r) h)

position_zero-append :
    (name rest : Bytes) → NoZero name → position_zero (name ++ 0 ∷ rest) ≡ some (length name)
unfolding position_zero
position_zero-append [] rest h = refl
position_zero-append (c ∷ cs) rest (hc, hcs) =
    rw (==_ne c 0 hc) (rw (position_zero-append cs rest hcs))

-- A string with its terminator is taken off the front, without it.
pub fetch_str-append :
    (name rest : Bytes) → NoZero name → fetch_str (at (name ++ 0 ∷ rest)) ≡ (some name, at rest)
unfolding fetch_str
fetch_str-append name rest h =
    rw (position_zero-append name rest h, fetch_str)
      (rw (fetch_bytes-append (length name) name (0 ∷ rest) refl)
        (rw (fetch_bytes-append 1 (0 ∷ []) rest refl)))

position_zero_absent : (bs : Bytes) → NoZero bs → position_zero bs ≡ none
unfolding position_zero
position_zero_absent [] h = refl
position_zero_absent (c ∷ cs) (hc, hcs) = rw (==_ne c 0 hc) (rw (position_zero_absent cs hcs))

-- Without a terminator nothing is taken.
pub fetch_str_absent : (it : ArgumentIterator) → NoZero it.bytes → fetch_str it ≡ (none, it)
unfolding fetch_str
fetch_str_absent it h = rw (position_zero_absent it.bytes h, fetch_str)

-- Bytes end at a first terminator, or have none.
abbrev pub Terminated : Bytes → Type 0
Terminated bs = (name : Bytes) × (rest : Bytes) × NoZero name × (bs ≡ name ++ 0 ∷ rest)

Terminated-cons : (c : ℕ) (cs : Bytes) → c ≢ 0 → Terminated cs → Terminated (c ∷ cs)
Terminated-cons c cs hc (name, rest, h, e) = (c ∷ name, rest, (hc, h), ap (λ t. c ∷ t) e)

pub Terminated-cases : (bs : Bytes) → Terminated bs ⊎ NoZero bs
Terminated-cases [] = inr tt
Terminated-cases (c ∷ cs) = elim (Bool-cases (c == 0)) [
  | inl t ↦ inl ([], cs, tt, ap (λ z. z ∷ cs) ((==_iff c 0).0 t))
  | inr f ↦ elim (Terminated-cases cs) [
    | inl t ↦ inl (Terminated-cons c cs (ne f) t)
    | inr h ↦ inr (ne f, h)
  ]
]
  where
    ne : (c == 0) ≡ false → c ≢ 0
    ne f e = cc (f, (==_iff c 0).1 e)

-- `fetch_str` succeeds exactly on bytes that hold a terminator: the string is what stands before the
-- first one, and the iterator goes on behind it.
pub fetch_str_iff :
    (it it' : ArgumentIterator) (name : Bytes)
    → (fetch_str it ≡ (some name, it')) ↔ (NoZero name × (it.bytes ≡ name ++ 0 ∷ it'.bytes))
fetch_str_iff it it' name = (forth, back)
  where
    forth : fetch_str it ≡ (some name, it') → NoZero name × (it.bytes ≡ name ++ 0 ∷ it'.bytes)
    forth e = elim (Terminated-cases it.bytes) [
      | inl (found, rest, h, b) ↦
          let taken : (some found, at rest) ≡ (some name, it') =
            sym (fetch_str-append found rest h) ∙ ap (λ bs. fetch_str (at bs)) (sym b) ∙ e in
          ground (arith, taken)
      | inr h ↦ cc (fetch_str_absent it h, e)
    ]

    back : NoZero name × (it.bytes ≡ name ++ 0 ∷ it'.bytes) → fetch_str it ≡ (some name, it')
    back (h, b) = ap (λ bs. fetch_str (at bs)) b ∙ fetch_str-append name it'.bytes h
