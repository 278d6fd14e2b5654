-- ===== src/Session/Life/Order.antt =====
-- The order of what a session does to the system (src/session.rs, src/channel.rs).
use mathlib.Core.List.{Perm, perm_append_comm}
use mathlib.Core.List.Perm
use async_fuse_rs.Prelude.{
  ℕ, suc, ◌+◌, ◌==◌, ◌<◌, ◌≡◌, refl, subst, sym, ap, ◌∙◌, arith, ◌⊎◌, inl, inr, Bool-cases, Bool,
  true, false, List, [], ◌∷◌, ◌++◌, append-nil, map, length, length-append,
}
use async_fuse_rs.Libc.{Libc}
use async_fuse_rs.Channel.{Message}
use async_fuse_rs.Channel.Mount
use async_fuse_rs.Channel.Mount.{System, SysCall, Channel}
use async_fuse_rs.Request.Task.{Request, Task, ResultOf}
use async_fuse_rs.Session.Loop.{Verdict, waits, returned_ok, returned_err}
use async_fuse_rs.Session.Server.{Reach, boot, accept, work, start, end, outcome}
use async_fuse_rs.Session.Start.{background_drop}
use async_fuse_rs.Session.Life.{
  Event, wrote, called, let_go, World, release, IsAt, Tick, retries, quits, gives_up, starts, ends,
  leaves, answers, lets_go, Life, mount, spawns, goes, after_return, after_answer,
}

-- The messages among the events, and the calls that end the channel.
abbrev pub messages : List Event → List Message
messages [] = []
messages (wrote m ∷ es) = m ∷ messages es
messages (called _ ∷ es) = messages es
messages (let_go _ ∷ es) = messages es

abbrev pub closing : List Event → List SysCall
closing [] = []
closing (wrote _ ∷ es) = closing es
closing (called c ∷ es) = c ∷ closing es
closing (let_go _ ∷ es) = closing es

messages-append : (es fs : List Event) → messages (es ++ fs) ≡ messages es ++ messages fs
messages-append [] fs = refl
messages-append (wrote m ∷ es) fs = ap (λ t. m ∷ t) (messages-append es fs)
messages-append (called _ ∷ es) fs = messages-append es fs
messages-append (let_go _ ∷ es) fs = messages-append es fs

closing-append : (es fs : List Event) → closing (es ++ fs) ≡ closing es ++ closing fs
closing-append [] fs = refl
closing-append (wrote _ ∷ es) fs = closing-append es fs
closing-append (called c ∷ es) fs = ap (λ t. c ∷ t) (closing-append es fs)
closing-append (let_go _ ∷ es) fs = closing-append es fs

wrote_lem : (ms : List Message) → (messages (map wrote ms) ≡ ms) × (closing (map wrote ms) ≡ [])
wrote_lem [] = (refl, refl)
wrote_lem (m ∷ ms) = (ap (λ t. m ∷ t) (wrote_lem ms).0, (wrote_lem ms).1)

called_lem : (cs : List SysCall) → (messages (map called cs) ≡ []) × (closing (map called cs) ≡ cs)
called_lem [] = (refl, refl)
called_lem (c ∷ cs) = ((called_lem cs).0, ap (λ t. c ∷ t) (called_lem cs).1)

let_go_lem : (cs : List SysCall) → (messages (map let_go cs) ≡ []) × (closing (map let_go cs) ≡ [])
let_go_lem [] = (refl, refl)
let_go_lem (c ∷ cs) = let_go_lem cs

pub length-zero : {A : Type 0} (xs : List A) → length xs ≡ 0 → xs ≡ []
length-zero [] h = refl
length-zero (x ∷ xs) h = absurd (omega (arith, h))

-- One reference for the loop while it runs, and one for each dispatch that is not over.
abbrev pub loop_refs : Verdict → ℕ
loop_refs waits = 1
loop_refs returned_ok = 0
loop_refs (returned_err _) = 0

abbrev pub not_over : List Bool → ℕ
not_over [] = 0
not_over (true ∷ bs) = not_over bs
not_over (false ∷ bs) = suc (not_over bs)

not_over-false : (ds bs : List Bool) → not_over (ds ++ false ∷ bs) ≡ suc (not_over (ds ++ bs))
not_over-false [] bs = refl
not_over-false (true ∷ ds) bs = not_over-false ds bs
not_over-false (false ∷ ds) bs = ap suc (not_over-false ds bs)

not_over-true : (ds bs : List Bool) → not_over (ds ++ true ∷ bs) ≡ not_over (ds ++ bs)
not_over-true [] bs = refl
not_over-true (true ∷ ds) bs = not_over-true ds bs
not_over-true (false ∷ ds) bs = ap suc (not_over-true ds bs)

abbrev pub holders : World → ℕ
holders w = loop_refs w.looping + length w.server.waiting + not_over w.over

-- The channel is open while somebody holds the session, and has been ended when nobody does.
abbrev pub HasClosed : System → Channel → World → Type 0
HasClosed sys ch w =
    ((0 < w.refs) × (closing w.events ≡ []))
    ⊎ ((w.refs ≡ 0) × (closing w.events ≡ Mount.drop sys ch))

pub record Inv (libc : Libc) (sys : System) (ch : Channel) (reqs : List Request) (w : World)
    : Type 0 where
  pub counted : w.refs ≡ holders w
  pub marked : length w.over ≡ length w.server.running
  pub reached : Reach libc reqs w.server
  pub written : Perm (messages w.events) w.server.sent
  pub closed : HasClosed sys ch w

module _ (libc : Libc) (sys : System) (ch : Channel) where
  abbrev pub Holds : List Request → World → Type 0
  Holds reqs w = Inv libc sys ch reqs w

  -- A holder of a reference finds the session open.
  held-open :
      (reqs : List Request) (w : World) → Holds reqs w → 0 < holders w → closing w.events ≡ []
  held-open reqs w i h = elim i.closed [
    | inl (_, o) ↦ o
    | inr (none_left, _) ↦ absurd (omega (arith, none_left, i.counted, h))
  ]

  release-Inv :
      (reqs : List Request) (w : World)
      → w.refs ≡ suc (holders w)
      → length w.over ≡ length w.server.running
      → Reach libc reqs w.server
      → Perm (messages w.events) w.server.sent
      → closing w.events ≡ []
      → Holds reqs (release sys ch w)
  unfolding release
  release-Inv reqs w c m r p e = elim (Bool-cases (w.refs == 1)) [
    | inl last ↦
        let calls : List SysCall = Mount.drop sys ch in
        rw last (record {
          counted = ground (arith, last, c);
          marked = m;
          reached = r;
          written =
              subst (λ ms. Perm ms w.server.sent)
                (sym (
                  messages-append w.events (map called calls)
                  ∙ ap (λ t. messages w.events ++ t) (called_lem calls).0
                  ∙ append-nil (messages w.events)))
                p;
          closed = inr (
            refl,
            closing-append w.events (map called calls)
                ∙ ap (λ t. t ++ closing (map called calls)) e
                ∙ (called_lem calls).1,
          );
        })
    | inr other ↦ rw other (record {
      counted = ground (arith, other, c);
      marked = m;
      reached = r;
      written = p;
      closed = inl (ground (arith, other, c), e);
    })
  ]

  returned-Inv :
      (reqs : List Request) (w : World) (v : Verdict)
      → loop_refs v ≡ 0
      → w.looping ≡ waits
      → Holds reqs w
      → Holds reqs (after_return sys ch v w)
  returned-Inv reqs w v none_left alive i =
      let alone : loop_refs w.looping ≡ 1 = ap loop_refs alive in
      release-Inv reqs (record w { looping = v }) (omega (arith, i.counted, alone, none_left))
        i.marked i.reached i.written (held-open reqs w i (omega (arith, alone)))

  -- What the use of a reply does to the messages, to the calls, and to the marks.
  module _ (reqs : List Request) (w : World) (xs ys : List (Request × Task)) (ds bs : List Bool)
      (req : Request) (t : Task) (result : ResultOf t) (b : Bool) (at : IsAt w xs ys ds bs req t b)
      (i : Holds reqs w) where
    abbrev answered : World
    answered = after_answer libc xs ys ds bs t result w

    abbrev out : List Message
    out = (outcome libc w.server t result).sent

    answered-written : Perm (messages answered.events) answered.server.sent
    answered-written =
        subst (λ ms. Perm ms (out ++ w.server.sent))
          (sym (
            messages-append w.events (map wrote out)
            ∙ ap (λ z. messages w.events ++ z) (wrote_lem out).0))
          (Perm.trans (Perm.append_right out i.written) (perm_append_comm w.server.sent out))

    answered-closing : closing answered.events ≡ closing w.events
    answered-closing =
        closing-append w.events (map wrote out)
        ∙ ap (λ z. closing w.events ++ z) (wrote_lem out).1
        ∙ append-nil (closing w.events)

    answered-marked : length answered.over ≡ length answered.server.running
    answered-marked = omega (
      arith,
      i.marked,
      ap length at.task,
      ap length at.mark,
      length-append xs ((req, t) ∷ ys),
      length-append xs ys,
      length-append ds (b ∷ bs),
      length-append ds bs,
    )

    answered-reached : Reach libc reqs answered.server
    answered-reached = work (end xs ys req t result at.task) i.reached

  pub Tick-Inv :
      (reqs : List Request) (w w' : World) → Tick libc sys ch w w' → Holds reqs w → Holds reqs w'
  Tick-Inv reqs w _ (retries r alive t) i = i
  Tick-Inv reqs w _ (quits r alive t) i = returned-Inv reqs w returned_ok refl alive i
  Tick-Inv reqs w _ (gives_up r e alive t) i = returned-Inv reqs w (returned_err e) refl alive i
  Tick-Inv reqs w _ (starts xs ys req e) i = record {
    counted =
        omega (arith, i.counted, ap length e, length-append xs (req ∷ ys), length-append xs ys);
    marked = ap suc i.marked;
    reached = work (start xs ys req e) i.reached;
    written = i.written;
    closed = i.closed;
  }
  Tick-Inv reqs w _ (ends xs ys ds bs req t result at) i =
      let held : not_over w.over ≡ suc (not_over (ds ++ bs)) =
        ap not_over at.mark ∙ not_over-false ds bs in
      release-Inv reqs (after_answer libc xs ys ds bs t result w) (omega (arith, i.counted, held))
        (answered-marked reqs w xs ys ds bs req t result false at i)
        (answered-reached reqs w xs ys ds bs req t result false at i)
        (answered-written reqs w xs ys ds bs req t result false at i)
        (answered-closing reqs w xs ys ds bs req t result false at i
          ∙ held-open reqs w i (omega (arith, held)))
  Tick-Inv reqs w _ (leaves xs ys ds bs req t has at) i =
      let held : not_over w.over ≡ suc (not_over (ds ++ bs)) =
        ap not_over at.mark ∙ not_over-false ds bs in
      release-Inv reqs (record w { over = ds ++ true ∷ bs })
        (omega (arith, i.counted, held, not_over-true ds bs))
        (omega (
          arith,
          i.marked,
          ap length at.mark,
          length-append ds (false ∷ bs),
          length-append ds (true ∷ bs),
        ))
        i.reached i.written (held-open reqs w i (omega (arith, held)))
  Tick-Inv reqs w _ (answers xs ys ds bs req t result at) i =
      let same : not_over w.over ≡ not_over (ds ++ bs) =
        ap not_over at.mark ∙ not_over-true ds bs in
      record {
        counted = omega (arith, i.counted, same);
        marked = answered-marked reqs w xs ys ds bs req t result true at i;
        reached = answered-reached reqs w xs ys ds bs req t result true at i;
        written = answered-written reqs w xs ys ds bs req t result true at i;
        closed =
            subst (λ cs. ((0 < w.refs) × (cs ≡ [])) ⊎ ((w.refs ≡ 0) × (cs ≡ Mount.drop sys ch)))
              (sym (answered-closing reqs w xs ys ds bs req t result true at i)) i.closed;
      }
  Tick-Inv reqs w _ (lets_go bg) i =
      let calls : List SysCall = background_drop sys bg in
      record {
        counted = i.counted;
        marked = i.marked;
        reached = i.reached;
        written =
            subst (λ ms. Perm ms w.server.sent)
              (sym (
                messages-append w.events (map let_go calls)
                ∙ ap (λ t. messages w.events ++ t) (let_go_lem calls).0
                ∙ append-nil (messages w.events)))
              i.written;
        closed =
            subst (λ cs. ((0 < w.refs) × (cs ≡ [])) ⊎ ((w.refs ≡ 0) × (cs ≡ Mount.drop sys ch)))
              (sym (
                closing-append w.events (map let_go calls)
                ∙ ap (λ t. closing w.events ++ t) (let_go_lem calls).1
                ∙ append-nil (closing w.events)))
              i.closed;
      }

  pub Life-Inv : (reqs : List Request) (w : World) → Life libc sys ch reqs w → Holds reqs w
  Life-Inv _ _ mount = record {
    counted = refl;
    marked = refl;
    reached = boot;
    written = Perm.refl [];
    closed = inl (omega arith, refl);
  }
  Life-Inv _ _ (spawns {reqs} {w} r req alive t l) =
      let i = Life-Inv reqs w l in
      let alone : loop_refs w.looping ≡ 1 = ap loop_refs alive in
      record {
        counted = omega (arith, i.counted);
        marked = i.marked;
        reached = accept req i.reached;
        written = i.written;
        closed = inl (omega arith, held-open reqs w i (omega (arith, alone)));
      }
  Life-Inv _ _ (goes {reqs} {w} {w'} s l) = Tick-Inv reqs w w' s (Life-Inv reqs w l)
