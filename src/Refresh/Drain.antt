-- ===== src/Refresh/Drain.antt =====
-- No deadlock between the handlers of internal/cache/live_query.go, which trigger under their lock,
-- and the loops and readers of internal/live_query: what is owed can be paid.
use xgql.Prelude.{
  ℕ, ◌⊎◌, ◌≡◌, refl, inl, inr, true, false, none, some, List, [], ◌∷◌, arith, if◌then◌else◌,
  nat_beq, nat_beq_iff, Bool-cases, Option-cases, exists_in, beq_refl, nat_eq,
}
use xgql.Live.Debounce.{Action, Phase, Loop, receive, expire, arm_timer, receives, sends}
use xgql.Live.Debounce
use xgql.Refresh.{
  Reader, System, start_system, set, with_query, with_pending, Seen, refreshed, silent, is_refresh,
  Step, Run, rest, step,
}
use xgql.Refresh.Step.{triggers, skips, rearms, expires, notifies}
use xgql.Refresh.Sound.{is_resolving, IsSound, AllSound, Step-AllSound, reached-AllSound}
use xgql.Refresh.Owed.{owes, owed, Step-owed}

-- Some run has the reader of the query resolve again.
pub record Refreshable (throttle i : ℕ) (s : System) : Type 0 where
  pub events : List Seen
  pub last : System
  pub run : Run throttle s events last
  pub seen : exists_in (is_refresh i) events ≡ true

stands : (p : Phase) → (p ≡ Phase.selecting) ⊎ ((p ≡ Phase.sending) ⊎ (p ≡ Phase.closed))
stands Phase.selecting = inl refl
stands Phase.sending = inr (inl refl)
stands Phase.closed = inr (inr refl)

reader_is : (r : Reader) → r ≡ (if is_resolving r then Reader.resolving else Reader.waiting)
reader_is Reader.resolving = refl
reader_is Reader.waiting = refl

-- With this pending, the query can be refreshed.
abbrev Drains : ℕ → ℕ → List ℕ → Type 0
Drains throttle i ids =
    (s : System)
    → s.pending ≡ ids
    → AllSound s.queries
    → (s.queries i).done ≡ false
    → owed i s ≡ true
    → Refreshable throttle i s

module _ {throttle i : ℕ} where
  first :
      {s t : System} {e : Seen}
      → Step throttle e s t
      → Refreshable throttle i t
      → Refreshable throttle i s
  unfolding exists_in
  first {e = e} st r = record {
    events = e ∷ r.events;
    last = r.last;
    run = step st r.run;
    seen = ground (arith, r.seen);
  }

  refresh :
      {s t : System} (j : ℕ)
      → nat_beq i j ≡ true
      → Step throttle (refreshed j) s t
      → Refreshable throttle i s
  unfolding exists_in is_refresh
  refresh {t = t} j h st = record {
    events = refreshed j ∷ [];
    last = t;
    run = step st rest;
    seen = ground (arith, h);
  }

  when_sending :
      (s : System)
      → (s.queries i).loop.phase ≡ Phase.sending
      → (s.queries i).reader ≡ Reader.waiting
      → Refreshable throttle i s
  when_sending s p w = refresh i (beq_refl i) (notifies i 0 w (sends 0 p))

  when_set :
      (s : System) (due : ℕ)
      → (s.queries i).loop.phase ≡ Phase.selecting
      → (s.queries i).loop.timer ≡ some due
      → (s.queries i).reader ≡ Reader.waiting
      → Refreshable throttle i s
  unfolding with_query set expire
  when_set s due p t w =
      first (expires i due (Debounce.expires due due p t (omega arith)))
        (when_sending _ (ground (arith, beq_refl i)) (ground (arith, beq_refl i, w)))

  when_fired :
      (s : System)
      → (s.queries i).loop.phase ≡ Phase.selecting
      → (s.queries i).loop.timer ≡ none
      → (s.queries i).loop.fired ≡ true
      → (s.queries i).reader ≡ Reader.resolving
      → Refreshable throttle i s
  unfolding with_query set receive arm_timer
  when_fired s p t f r = first (rearms i 0 r (receives 0 Action.rearm p)) (
      when_set _ throttle (ground (arith, beq_refl i, f, p)) (ground (arith, beq_refl i, f, t))
        (ground (arith, beq_refl i)))

  -- The query of a system in which nothing is pending.
  settle :
      (s : System)
      → IsSound (s.queries i)
      → (s.queries i).done ≡ false
      → owes (s.queries i) ≡ true
      → Refreshable throttle i s
  settle s h d o = elim (stands (s.queries i).loop.phase) [
    | inr (inl p) ↦
        when_sending s p (ground (arith, reader_is (s.queries i).reader, p, d, h.resolves))
    | inr (inr p) ↦ absurd (ground (arith, p, d, h.returned))
    | inl p ↦ elim (Option-cases (s.queries i).loop.timer) [
      | inl t ↦
          when_fired s p t (ground (arith, p, t, d, o))
            (ground (arith, reader_is (s.queries i).reader, p, t, d, o))
      | inr (due, t) ↦
          when_set s due p t (ground (arith, reader_is (s.queries i).reader, p, t, d, h.resolves))
    ]
  ]

  trigger :
      (j : ℕ) (ids : List ℕ) (s : System)
      → Drains throttle i ids
      → s.pending ≡ j ∷ ids
      → AllSound s.queries
      → (s.queries i).done ≡ false
      → owed i s ≡ true
      → (s.queries j).loop.phase ≡ Phase.selecting
      → Refreshable throttle i s
  unfolding with_query with_pending set is_refresh
  trigger j ids s f e h d o p =
      let st : Step throttle silent s _ = triggers j 0 ids e (receives 0 Action.fire p) in
      first st (
        f _ refl (Step-AllSound st h) (ground (arith, d, nat_beq_iff j i))
          (ground (arith, Step-owed i st h o)))

  -- A loop that sends lets its reader resolve again first.
  unblock :
      (j : ℕ) (ids : List ℕ) (s : System)
      → Drains throttle i ids
      → s.pending ≡ j ∷ ids
      → AllSound s.queries
      → (s.queries i).done ≡ false
      → owed i s ≡ true
      → (s.queries j).loop.phase ≡ Phase.sending
      → (s.queries j).reader ≡ Reader.waiting
      → Refreshable throttle i s
  unfolding with_query set is_refresh
  unblock j ids s f e h d o p w =
      let st : Step throttle (refreshed j) s _ = notifies j 0 w (sends 0 p) in
      elim (Bool-cases (nat_beq j i)) [
        | inl q ↦ refresh j (ground (arith, q)) st
        | inr q ↦ first st (
            trigger j ids _ f e (Step-AllSound st h) (ground (arith, d, q))
              (ground (arith, q, Step-owed i st h o)) (ground (arith, beq_refl j)))
      ]

  drain : (ids : List ℕ) → Drains throttle i ids
  unfolding with_pending is_refresh exists_in
  drain [] s e h d o = settle s (h i) d (ground (arith, e, o))
  drain (j ∷ ids) s e h d o = elim (Bool-cases (s.queries j).done) [
    | inl q ↦
        let st : Step throttle silent s _ = skips j ids e q in
        first st (drain ids _ refl h d (ground (arith, Step-owed i st h o)))
    | inr q ↦ elim (stands (s.queries j).loop.phase) [
      | inl p ↦ trigger j ids s (drain ids) e h d o p
      | inr (inl p) ↦
          unblock j ids s (drain ids) e h d o p
            (ground (arith, reader_is (s.queries j).reader, p, q, (h j).resolves))
      | inr (inr p) ↦ absurd (ground (arith, p, q, (h j).returned))
    ]
  ]

-- There is no deadlock: from every state that is reached, a live query that is not done and owes a
-- refresh can be refreshed by steps of the handlers, the loops and the readers, even while a handler
-- holds the lock with other queries to trigger.
pub owed-Refreshable :
    {throttle : ℕ} {es : List Seen} {s : System} (i : ℕ)
    → Run throttle start_system es s
    → (s.queries i).done ≡ false
    → owed i s ≡ true
    → Refreshable throttle i s
owed-Refreshable {s = s} i run d o = drain s.pending s refl (reached-AllSound run) d o
