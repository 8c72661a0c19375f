-- ===== src/Refresh/Owed.antt =====
-- No change is lost between internal/cache/live_query.go and the reader of a live query.
use xgql.Prelude.{
  ℕ, ◌≡◌, inl, inr, Bool, true, ◌&&◌, ◌||◌, List, arith, nat_eq, nat_beq, nat_beq_iff, Bool-cases,
  exists_in,
}
use xgql.Live.Debounce.{
  Action, Phase, Loop, receive, expire, act, tick, notify, stop, receives, expires, sends, stops,
}
use xgql.Live.Debounce
use xgql.Refresh.{
  Reader, Query, System, set, with_query, with_pending, after_change, after_read, Seen, is_refresh,
  Step, Run, rest, step,
}
use xgql.Refresh.Step.{
  reads, changes, triggers, skips, rearms, gives_up, expires, notifies, wakes, ends, returns,
}
use xgql.Refresh.Sound.{is_set, is_resolving, is_sending, IsSound, AllSound, Step-AllSound}

-- The query is done, or what it has will have its reader resolve again.
abbrev pub owes : Query → Bool
owes q =
    q.done
    || is_sending q.loop.phase
    || is_set q.loop.timer
    || (is_resolving q.reader && q.loop.fired)

-- A handler has still to trigger the query, or the query owes a refresh.
abbrev pub owed : ℕ → System → Bool
owed i s = exists_in (nat_beq i) s.pending || owes (s.queries i)

-- A trigger always leaves a debt.
fire-owes :
    {throttle now : ℕ} {l : Loop} (q : Query)
    → Debounce.Step throttle (act now Action.fire) q.loop l
    → IsSound q
    → owes (record q { loop = l }) ≡ true
unfolding receive
fire-owes q (receives t a p) h = ground (arith, h.returned, h.resolves, h.waits, h.sends)

rearm-owes :
    {throttle now : ℕ} {l : Loop} (q : Query)
    → Debounce.Step throttle (act now Action.rearm) q.loop l
    → owes q ≡ true
    → owes (record q { loop = l; reader = Reader.waiting }) ≡ true
unfolding receive
rearm-owes q (receives t a p) h = ground arith

tick-owes :
    {throttle now : ℕ} {l : Loop} (q : Query)
    → Debounce.Step throttle (tick now) q.loop l
    → owes (record q { loop = l }) ≡ true
unfolding expire
tick-owes q (expires t due p d le) = ground arith

-- A change of one query that keeps its debt keeps the system's.
set-owed :
    (i j : ℕ) (q : Query) (ids : List ℕ) (queries : ℕ → Query)
    → (owes (queries j) ≡ true → owes q ≡ true)
    → (exists_in (nat_beq i) ids || owes (queries i)) ≡ true
    → (exists_in (nat_beq i) ids || owes (set j q queries i)) ≡ true
unfolding set
set-owed i j q ids queries f h = elim (Bool-cases (nat_beq j i)) [
  | inl p ↦ ground (arith, p, (nat_beq_iff j i).0 p, f)
  | inr p ↦ rw p h
]

-- A step pays a debt by a refresh only.
pub Step-owed :
    {throttle : ℕ} {e : Seen} {s t : System} (i : ℕ)
    → Step throttle e s t
    → AllSound s.queries
    → owed i s ≡ true
    → (is_refresh i e || owed i t) ≡ true
unfolding with_query with_pending after_change after_read is_refresh exists_in
Step-owed i (reads j found w r p q) h o = o
Step-owed {s = s} i (changes ch p) h o = ground (arith, p, o)
Step-owed {s = s} i (triggers j now ids p st) h o = elim (Bool-cases (nat_beq j i)) [
  | inl q ↦ ground (arith, q, fire-owes (s.queries j) st (h j))
  | inr q ↦ ground (arith, p, q, o)
]
Step-owed {s = s} i (skips j ids p d) h o = ground (arith, p, o, d)
Step-owed {s = s} i (rearms j now p st) h o =
    set-owed i j _ s.pending s.queries (rearm-owes (s.queries j) st) o
Step-owed {s = s} i (gives_up j p d) h o =
    set-owed i j _ s.pending s.queries (λ k. ground (arith, d)) o
Step-owed {s = s} i (expires j now st) h o =
    set-owed i j _ s.pending s.queries (λ k. tick-owes (s.queries j) st) o
Step-owed {s = s} i (notifies j now p st) h o = ground (arith, o)
Step-owed {s = s} i (wakes j p c) h o = ground (arith, o)
Step-owed {s = s} i (ends j) h o = set-owed i j _ s.pending s.queries (λ k. ground arith) o
Step-owed {s = s} i (returns j now d st) h o =
    set-owed i j _ s.pending s.queries (λ k. ground (arith, d)) o

pub Run-owed :
    {throttle : ℕ} {es : List Seen} {s t : System} (i : ℕ)
    → Run throttle s es t
    → AllSound s.queries
    → owed i s ≡ true
    → (exists_in (is_refresh i) es || owed i t) ≡ true
unfolding exists_in
Run-owed i rest h o = o
Run-owed {s = s} i (step {t = t} {e = e} {es = es} st run) h o =
    elim (Bool-cases (is_refresh i e)) [
      | inl p ↦ ground (arith, p)
      | inr p ↦
          ground
            (arith, p, Run-owed i run (Step-AllSound st h) (ground (arith, p, Step-owed i st h o)))
    ]
