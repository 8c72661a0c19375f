-- ===== src/Refresh/Sound.antt =====
-- What holds of every query in every state of internal/live_query and internal/cache/live_query.go:
-- the loop and its reader agree on whose turn it is.
use xgql.Prelude.{
  ℕ, ◌≡◌, inl, inr, Bool, true, false, not, ◌&&◌, ◌||◌, Option, none, some, List, arith, nat_beq,
  Bool-cases,
}
use xgql.Live.Debounce.{
  Action, Phase, Loop, start, receive, expire, Event, act, tick, notify, stop, receives, expires,
  sends, stops,
}
use xgql.Live.Debounce
use xgql.Refresh.{
  Reader, Query, System, start_query, start_system, set, with_query, with_pending, after_change,
  after_read, Seen, Step, Run, rest, step,
}
use xgql.Refresh.Step.{
  reads, changes, triggers, skips, rearms, gives_up, expires, notifies, wakes, ends, returns,
}

abbrev pub is_set : Option ℕ → Bool
is_set none = false
is_set (some t) = true

abbrev pub is_resolving : Reader → Bool
is_resolving Reader.resolving = true
is_resolving Reader.waiting = false

abbrev pub is_selecting : Phase → Bool
is_selecting Phase.selecting = true
is_selecting _ = false

abbrev pub is_sending : Phase → Bool
is_sending Phase.sending = true
is_sending _ = false

abbrev pub is_closed : Phase → Bool
is_closed Phase.closed = true
is_closed _ = false

-- The loop has returned only when the query is done. Before that, while the reader resolves the loop
-- is at its first `select`, not armed and with no timer; while it waits the loop sends, is armed, or
-- has its timer set.
pub record IsSound (q : Query) : Type 0 where
  pub returned : (is_closed q.loop.phase && not q.done) ≡ false
  pub resolves :
      (q.done
        || not (is_resolving q.reader)
        || (is_selecting q.loop.phase && not q.loop.armed && not (is_set q.loop.timer)))
      ≡ true
  pub waits :
      (q.done
        || is_resolving q.reader
        || not (is_selecting q.loop.phase)
        || q.loop.armed
        || is_set q.loop.timer)
      ≡ true
  pub sends :
      (not (is_sending q.loop.phase) || (not q.loop.armed && not (is_set q.loop.timer))) ≡ true

start_query-IsSound : IsSound start_query
unfolding start_query start
start_query-IsSound = ground arith

fire-IsSound :
    {throttle now : ℕ} {l : Loop} (q : Query)
    → Debounce.Step throttle (act now Action.fire) q.loop l
    → IsSound q
    → IsSound (record q { loop = l })
unfolding receive
fire-IsSound q (receives t a p) h = ground (arith, h.resolves, h.waits, h.sends)

rearm-IsSound :
    {throttle now : ℕ} {l : Loop} (q : Query)
    → Debounce.Step throttle (act now Action.rearm) q.loop l
    → IsSound q
    → IsSound (record q { loop = l; reader = Reader.waiting })
unfolding receive
rearm-IsSound q (receives t a p) h = ground (arith, h.resolves, h.waits, h.sends)

tick-IsSound :
    {throttle now : ℕ} {l : Loop} (q : Query)
    → Debounce.Step throttle (tick now) q.loop l
    → IsSound q
    → IsSound (record q { loop = l })
unfolding expire
tick-IsSound q (expires t due p d le) h = ground (arith, h.resolves, h.sends)

notify-IsSound :
    {throttle now : ℕ} {l : Loop} (q : Query)
    → Debounce.Step throttle (notify now) q.loop l
    → IsSound q
    → IsSound (record q { loop = l; reader = Reader.resolving })
notify-IsSound q (sends t p) h = ground (arith, h.returned, h.sends)

stop-IsSound :
    {throttle now : ℕ} {l : Loop} (q : Query)
    → q.done ≡ true
    → Debounce.Step throttle (stop now) q.loop l
    → IsSound q
    → IsSound (record q { loop = l })
stop-IsSound q d (stops t p) h = ground (arith, d)

abbrev pub AllSound : (ℕ → Query) → Type 0
AllSound queries = (i : ℕ) → IsSound (queries i)

set-AllSound :
    (queries : ℕ → Query) (i : ℕ) (q : Query)
    → IsSound q
    → AllSound queries
    → AllSound (set i q queries)
unfolding set
set-AllSound queries i q h all j = elim (Bool-cases (nat_beq i j)) [
  | inl p ↦ rw p h
  | inr p ↦ rw p (all j)
]

-- Every step keeps every query sound.
pub Step-AllSound :
    {throttle : ℕ} {e : Seen} {s t : System}
    → Step throttle e s t
    → AllSound s.queries
    → AllSound t.queries
unfolding with_query with_pending after_change after_read
Step-AllSound (reads i found w r p q) h = h
Step-AllSound (changes ch p) h = h
Step-AllSound {s = s} (triggers i now ids p st) h =
    set-AllSound s.queries i _ (fire-IsSound (s.queries i) st (h i)) h
Step-AllSound (skips i ids p d) h = h
Step-AllSound {s = s} (rearms i now p st) h =
    set-AllSound s.queries i _ (rearm-IsSound (s.queries i) st (h i)) h
Step-AllSound {s = s} (gives_up i p d) h = set-AllSound s.queries i _ (ground (arith, d, h i)) h
Step-AllSound {s = s} (expires i now st) h =
    set-AllSound s.queries i _ (tick-IsSound (s.queries i) st (h i)) h
Step-AllSound {s = s} (notifies i now p st) h =
    set-AllSound s.queries i _ (notify-IsSound (s.queries i) st (h i)) h
Step-AllSound {s = s} (wakes i p c) h =
    set-AllSound s.queries i _ (ground (arith, c, (h i).returned)) h
Step-AllSound {s = s} (ends i) h = set-AllSound s.queries i _ (ground (arith, h i)) h
Step-AllSound {s = s} (returns i now d st) h =
    set-AllSound s.queries i _ (stop-IsSound (s.queries i) d st (h i)) h

pub Run-AllSound :
    {throttle : ℕ} {es : List Seen} {s t : System}
    → Run throttle s es t
    → AllSound s.queries
    → AllSound t.queries
Run-AllSound rest h = h
Run-AllSound (step st run) h = Run-AllSound run (Step-AllSound st h)

-- In every state that is reached, the loop of each live query and its reader agree: while the reader
-- resolves, the loop is at its first `select`, is not armed and has no timer; while it waits, the
-- loop sends, is armed, or has its timer set; and the loop returns only when the query is done.
pub reached-AllSound :
    {throttle : ℕ} {es : List Seen} {s : System}
    → Run throttle start_system es s
    → AllSound s.queries
unfolding start_system
reached-AllSound run = Run-AllSound run (λ i. start_query-IsSound)
