-- ===== src/Live/Debounce/Credit.antt =====
-- Each notification of `debounce` (internal/live_query/runtime.go) is paid for by a fire and a rearm.
use xgql.Prelude.{
  ℕ, suc, ◌+◌, ◌≤◌, ◌≡◌, Bool, true, false, Option, none, some, List, [], ◌∷◌, arith,
}
use xgql.Live.Debounce.{
  Action, Phase, Loop, start, receive, expire, Event, act, tick, notify, stop, Step, receives,
  expires, sends, stops,
}
use xgql.Live.Debounce.Runs.{IsReset, Step-IsReset, start-IsReset, Run, rest, step}

abbrev pub fires : List Event → ℕ
fires [] = 0
fires (act t Action.fire ∷ es) = suc (fires es)
fires (e ∷ es) = fires es

abbrev pub rearms : List Event → ℕ
rearms [] = 0
rearms (act t Action.rearm ∷ es) = suc (rearms es)
rearms (e ∷ es) = rearms es

abbrev pub notifies : List Event → ℕ
notifies [] = 0
notifies (notify t ∷ es) = suc (notifies es)
notifies (e ∷ es) = notifies es

-- What the loop owes for the round that it is in: at most one fire, and at most one rearm.
abbrev held : Phase → Option ℕ → Bool → ℕ
held Phase.sending timer seen = 1
held _ (some t) seen = 1
held _ none true = 1
held _ none false = 0

Step-credit :
    {throttle : ℕ} {e : Event} {l m : Loop}
    → Step throttle e l m
    → IsReset l
    → (notifies (e ∷ []) + held m.phase m.timer m.fired
        ≤ fires (e ∷ []) + held l.phase l.timer l.fired)
      × (notifies (e ∷ []) + held m.phase m.timer m.armed
          ≤ rearms (e ∷ []) + held l.phase l.timer l.armed)
unfolding receive expire
Step-credit (receives now Action.fire p) h = ground arith
Step-credit (receives now Action.rearm p) h = ground arith
Step-credit (expires now due p q d) h = ground arith
Step-credit (sends now p) h = ground (arith, h.no_timer p, h.not_armed p, h.not_fired p)
Step-credit (stops now p) h = ground arith

count-cons :
    (e : Event) (es : List Event)
    → (notifies (e ∷ es) ≡ notifies (e ∷ []) + notifies es)
      × (fires (e ∷ es) ≡ fires (e ∷ []) + fires es)
      × (rearms (e ∷ es) ≡ rearms (e ∷ []) + rearms es)
count-cons (act t Action.fire) es = omega arith
count-cons (act t Action.rearm) es = omega arith
count-cons (tick t) es = omega arith
count-cons (notify t) es = omega arith
count-cons (stop t) es = omega arith

Run-credit :
    {throttle t : ℕ} {l m : Loop} {es : List Event}
    → IsReset l
    → Run throttle t l es m
    → (notifies es ≤ fires es + held l.phase l.timer l.fired)
      × (notifies es ≤ rearms es + held l.phase l.timer l.armed)
Run-credit r rest = omega arith
Run-credit r (step {e = e} {es = es} le s run) =
    omega (arith, count-cons e es, Step-credit s r, Run-credit (Step-IsReset s r) run)

-- In every run of the loop there are at most as many notifications as fires, and at most as many as
-- rearms: a reader that has not rearmed the query is not notified again, however many changes come.
notifies-le :
    {throttle t : ℕ} {es : List Event} {l : Loop}
    → Run throttle t start es l
    → (notifies es ≤ fires es) × (notifies es ≤ rearms es)
unfolding start
notifies-le run = omega (arith, Run-credit start-IsReset run)
