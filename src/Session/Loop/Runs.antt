-- ===== src/Session/Loop/Runs.antt =====
-- The loop of `Session::run` against a relation that says which outcomes of `receive` it survives
-- (src/session.rs).
use async_fuse_rs.Prelude.{
  ℕ, ◌≡◌, ◌≢◌, ◌↔◌, ◌⊎◌, inl, inr, refl, ap, ◌∙◌, ◌==◌, arith, true, false, Bool-cases, none, some,
  List, [], ◌∷◌,
}
use async_fuse_rs.Bytes.{Bytes}
use async_fuse_rs.Libc.{Libc}
use async_fuse_rs.Channel.{ChannelSender}
use async_fuse_rs.Ll
use async_fuse_rs.Request.Task
use async_fuse_rs.Request.Task.{Request}
use async_fuse_rs.Session.Loop.{
  Received, got, failed, spawn, again, quit, give_up, turn_on_error, turn, Verdict, waits,
  returned_ok, returned_err, run,
}

-- The errors after which the loop goes on.
abbrev pub IsRetry : Libc → ℕ → Type 0
IsRetry libc e = (e ≡ libc.enoent) ⊎ ((e ≡ libc.eintr) ⊎ (e ≡ libc.eagain))

-- What the loop dispatches, and how it then stands, for what `receive` returns in turn: packets that can
-- be parsed are dispatched, three errors are passed over, and anything else ends the loop for good.
pub data Runs (libc : Libc) (ch : ChannelSender)
    : List Received → List Request → Verdict → Type 0 where
  pending : Runs libc ch [] [] waits
  packet :
      {rs : List Received} {reqs : List Request} {v : Verdict} (bytes : Bytes)
      → (request : Ll.Request.Request) → Ll.Request.try_from bytes ≡ Ll.Request.ok request
      → Runs libc ch rs reqs v
      → Runs libc ch (got bytes ∷ rs) (record { ch = ch; request = request } ∷ reqs) v
  retry :
      {rs : List Received} {reqs : List Request} {v : Verdict} (e : ℕ)
      → IsRetry libc e
      → Runs libc ch rs reqs v
      → Runs libc ch (failed (some e) ∷ rs) reqs v
  illegal :
      {rs : List Received} (bytes : Bytes) (problem : Ll.Request.RequestError)
      → Ll.Request.try_from bytes ≡ Ll.Request.err problem
      → Runs libc ch (got bytes ∷ rs) [] returned_ok
  unmounted :
      {rs : List Received} (e : ℕ)
      → (IsRetry libc e → ⊥)
      → e ≡ libc.enodev
      → Runs libc ch (failed (some e) ∷ rs) [] returned_ok
  broken :
      {rs : List Received} (e : ℕ)
      → (IsRetry libc e → ⊥)
      → e ≢ libc.enodev
      → Runs libc ch (failed (some e) ∷ rs) [] (returned_err (some e))
  unnumbered : {rs : List Received} → Runs libc ch (failed none ∷ rs) [] (returned_err none)

Number-cases : (m n : ℕ) → ((m ≡ n) × ((m == n) ≡ true)) ⊎ ((m ≢ n) × ((m == n) ≡ false))
Number-cases m n = elim (Bool-cases (m == n)) [
  | inl same ↦ inl (ground (arith, same), same)
  | inr other ↦ inr (λ e. ground (arith, other, e), other)
]

turn_on_error-cases :
    (libc : Libc) (e : ℕ)
    → (IsRetry libc e × (turn_on_error libc e ≡ again))
      ⊎ (((IsRetry libc e → ⊥) × ((e ≡ libc.enodev) × (turn_on_error libc e ≡ quit)))
          ⊎ ((IsRetry libc e → ⊥)
              × ((e ≢ libc.enodev) × (turn_on_error libc e ≡ give_up (some e)))))
unfolding turn_on_error
turn_on_error-cases libc e = elim (Number-cases e libc.enoent) [
  | inl (same, t) ↦ inl (inl same, rw t refl)
  | inr (other, t) ↦ elim (Number-cases e libc.eintr) [
    | inl (same, t') ↦ inl (inr (inl same), rw (t, t') refl)
    | inr (other', t') ↦ elim (Number-cases e libc.eagain) [
      | inl (same, t'') ↦ inl (inr (inr same), rw (t, t', t'') refl)
      | inr (other'', t'') ↦
          let none_of : IsRetry libc e → ⊥ = λ r. elim r [
            | inl p ↦ other p
            | inr q ↦ elim q [ inl p ↦ other' p | inr p ↦ other'' p ]
          ] in
          elim (Number-cases e libc.enodev) [
            | inl (same, t''') ↦ inr (inl (none_of, (same, rw (t, t', t'', t''') refl)))
            | inr (last, t''') ↦ inr (inr (none_of, (last, rw (t, t', t'', t''') refl)))
          ]
    ]
  ]
]

Result-cases :
    (bytes : Bytes)
    → ((r : Ll.Request.Request) × (Ll.Request.try_from bytes ≡ Ll.Request.ok r))
      ⊎ ((x : Ll.Request.RequestError) × (Ll.Request.try_from bytes ≡ Ll.Request.err x))
Result-cases bytes = go (Ll.Request.try_from bytes) refl
  where
    go :
        (t : Ll.Request.Result Ll.Request.Request)
        → Ll.Request.try_from bytes ≡ t
        → ((r : Ll.Request.Request) × (Ll.Request.try_from bytes ≡ Ll.Request.ok r))
          ⊎ ((x : Ll.Request.RequestError) × (Ll.Request.try_from bytes ≡ Ll.Request.err x))
    go (Ll.Request.ok r) e = inl (r, e)
    go (Ll.Request.err x) e = inr (x, e)

module _ (libc : Libc) (ch : ChannelSender) where
  turn_parsed :
      (bytes : Bytes) (request : Ll.Request.Request)
      → Ll.Request.try_from bytes ≡ Ll.Request.ok request
      → turn libc ch (got bytes) ≡ spawn (record { ch = ch; request = request })
  unfolding Task.new turn
  turn_parsed bytes request parsed =
      let made : Task.new ch bytes ≡ some (record { ch = ch; request = request }) =
        rw (parsed, Task.new) refl in
      rw (made, turn) refl

  turn_unparsed :
      (bytes : Bytes) (problem : Ll.Request.RequestError)
      → Ll.Request.try_from bytes ≡ Ll.Request.err problem
      → turn libc ch (got bytes) ≡ quit
  unfolding Task.new turn
  turn_unparsed bytes problem unparsed =
      let refused : Task.new ch bytes ≡ none = rw (unparsed, Task.new) refl in
      rw (refused, turn) refl

  turn_failed : (e : ℕ) → turn libc ch (failed (some e)) ≡ turn_on_error libc e
  unfolding turn
  turn_failed e = refl

  run-Runs : (rs : List Received) → Runs libc ch rs (run libc ch rs).0 (run libc ch rs).1
  unfolding run turn
  run-Runs [] = pending
  run-Runs (got bytes ∷ rs) = elim (Result-cases bytes) [
    | inl (request, parsed) ↦
        rw (turn_parsed bytes request parsed, run) (packet bytes request parsed (run-Runs rs))
    | inr (problem, unparsed) ↦
        rw (turn_unparsed bytes problem unparsed, run) (illegal bytes problem unparsed)
  ]
  run-Runs (failed (some e) ∷ rs) = elim (turn_on_error-cases libc e) [
    | inl (again_, t) ↦ rw (turn_failed e ∙ t, run) (retry e again_ (run-Runs rs))
    | inr (inl (no_retry, (same, t))) ↦ rw (turn_failed e ∙ t, run) (unmounted e no_retry same)
    | inr (inr (no_retry, (other, t))) ↦ rw (turn_failed e ∙ t, run) (broken e no_retry other)
  ]
  run-Runs (failed none ∷ rs) = unnumbered

  Runs-run :
      (rs : List Received) (reqs : List Request) (v : Verdict)
      → Runs libc ch rs reqs v
      → run libc ch rs ≡ (reqs, v)
  unfolding run turn
  Runs-run _ _ _ pending = refl
  Runs-run _ _ _ (packet {rs} {reqs} {v} bytes request parsed r) =
      rw (turn_parsed bytes request parsed, Runs-run rs reqs v r, run) refl
  Runs-run _ _ _ (retry {rs} {reqs} {v} e again_ r) = elim (turn_on_error-cases libc e) [
    | inl (_, t) ↦ rw (turn_failed e ∙ t, run) (Runs-run rs reqs v r)
    | inr (inl (no_retry, _)) ↦ absurd (no_retry again_)
    | inr (inr (no_retry, _)) ↦ absurd (no_retry again_)
  ]
  Runs-run _ _ _ (illegal bytes problem unparsed) =
      rw (turn_unparsed bytes problem unparsed, run) refl
  Runs-run _ _ _ (unmounted e no_retry same) = elim (turn_on_error-cases libc e) [
    | inl (again_, _) ↦ absurd (no_retry again_)
    | inr (inl (_, (_, t))) ↦ rw (turn_failed e ∙ t, run) refl
    | inr (inr (_, (other, _))) ↦ absurd (other same)
  ]
  Runs-run _ _ _ (broken e no_retry other) = elim (turn_on_error-cases libc e) [
    | inl (again_, _) ↦ absurd (no_retry again_)
    | inr (inl (_, (same, _))) ↦ absurd (other same)
    | inr (inr (_, (_, t))) ↦ rw (turn_failed e ∙ t, run) refl
  ]
  Runs-run _ _ _ unnumbered = refl

  -- The loop dispatches these requests and stands like this exactly where the relation says so.
  pub run_iff :
      (rs : List Received) (reqs : List Request) (v : Verdict)
      → (run libc ch rs ≡ (reqs, v)) ↔ Runs libc ch rs reqs v
  run_iff rs reqs v = (
    λ e.
        rw (ap (λ (x : List Request × Verdict). x.0) e, ap (λ (x : List Request × Verdict). x.1) e)
          at (run-Runs rs),
    Runs-run rs reqs v,
  )
