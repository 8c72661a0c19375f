-- ===== src/Live/Debounce/Runs.antt =====
-- Whole runs of `debounce` of internal/live_query/runtime.go: how often and how soon it notifies.
use xgql.Prelude.{ℕ, ◌+◌, ◌≤◌, ◌≡◌, false, Option, none, some, List, [], ◌∷◌, arith}
use xgql.Live.Debounce.{
  Action, Phase, Loop, start, receive, expire, Event, act, tick, notify, stop, Step, receives,
  expires, sends, stops,
}

abbrev pub time : Event → ℕ
time (act t a) = t
time (tick t) = t
time (notify t) = t
time (stop t) = t

-- Steps in the order of a clock that does not run backwards.
pub data Run (throttle : ℕ) : ℕ → Loop → List Event → Loop → Type 0 where
  rest : {t : ℕ} {l : Loop} → Run throttle t l [] l
  step :
      {t : ℕ} {l m n : Loop} {e : Event} {es : List Event}
      → t ≤ time e
      → Step throttle e l m
      → Run throttle (time e) m es n
      → Run throttle t l (e ∷ es) n

-- No notification is earlier than the time.
abbrev pub NotBefore : ℕ → List Event → Type 0
NotBefore b [] = Unit
NotBefore b (notify t ∷ es) = (b ≤ t) × NotBefore b es
NotBefore b (e ∷ es) = NotBefore b es

abbrev pub IsSpaced : ℕ → List Event → Type 0
IsSpaced d [] = Unit
IsSpaced d (notify t ∷ es) = NotBefore (t + d) es × IsSpaced d es
IsSpaced d (e ∷ es) = IsSpaced d es

-- The loop is reset while it sends.
pub record IsReset (l : Loop) : Type 0 where
  pub no_timer : l.phase ≡ Phase.sending → l.timer ≡ none
  pub not_armed : l.phase ≡ Phase.sending → l.armed ≡ false
  pub not_fired : l.phase ≡ Phase.sending → l.fired ≡ false

pub Step-IsReset :
    {throttle : ℕ} {e : Event} {l m : Loop} → Step throttle e l m → IsReset l → IsReset m
unfolding receive expire
Step-IsReset (receives now Action.fire p) h = ground arith
Step-IsReset (receives now Action.rearm p) h = ground arith
Step-IsReset (expires now due p q d) h = ground arith
Step-IsReset (sends now p) h = ground arith
Step-IsReset (stops now p) h = ground arith

abbrev DueFrom : ℕ → Option ℕ → Type 0
DueFrom b none = Unit
DueFrom b (some due) = b ≤ due

-- At time `t` the loop cannot notify before `b`.
record Holds (throttle b t : ℕ) (l : Loop) : Type 0 where
  soon : b ≤ t + throttle
  timer_due : DueFrom b l.timer
  sending_due : l.phase ≡ Phase.sending → b ≤ t

Step-Holds :
    {throttle t : ℕ} (b : ℕ) {e : Event} {l m : Loop}
    → IsReset l
    → Step throttle e l m
    → t ≤ time e
    → Holds throttle b t l
    → Holds throttle b (time e) m
unfolding receive expire
Step-Holds b r (receives now Action.fire p) le h = ground arith
Step-Holds b r (receives now Action.rearm p) le h = ground arith
Step-Holds b r (expires now due p q d) le h = ground arith
Step-Holds b r (sends now p) le h = ground arith
Step-Holds b r (stops now p) le h = ground arith

-- The event itself is not before the bound.
Step-NotBefore :
    {throttle t : ℕ} (b : ℕ) {e : Event} {l m : Loop}
    → Step throttle e l m
    → t ≤ time e
    → Holds throttle b t l
    → NotBefore b (e ∷ [])
Step-NotBefore b (receives now a p) le h = tt
Step-NotBefore b (expires now due p q d) le h = tt
Step-NotBefore b (sends now p) le h = omega (arith, h.sending_due p)
Step-NotBefore b (stops now p) le h = tt

NotBefore-cons :
    (b : ℕ) (e : Event) (es : List Event)
    → NotBefore b (e ∷ [])
    → NotBefore b es
    → NotBefore b (e ∷ es)
NotBefore-cons b (act t a) es h k = k
NotBefore-cons b (tick t) es h k = k
NotBefore-cons b (notify t) es h k = (h.0, k)
NotBefore-cons b (stop t) es h k = k

Run-NotBefore :
    {throttle t : ℕ} (b : ℕ) {l m : Loop} {es : List Event}
    → IsReset l
    → Holds throttle b t l
    → Run throttle t l es m
    → NotBefore b es
Run-NotBefore b r h rest = tt
Run-NotBefore b r h (step {e = e} {es = es} le s run) =
    NotBefore-cons b e es (Step-NotBefore b s le h)
      (Run-NotBefore b (Step-IsReset s r) (Step-Holds b r s le h) run)

-- What a send leaves keeps the next notification `throttle` away.
after_send :
    (throttle now : ℕ) (l : Loop)
    → IsReset l
    → l.phase ≡ Phase.sending
    → Holds throttle (now + throttle) now (record l { phase = Phase.selecting })
after_send throttle now l r p = ground (arith, r.no_timer p)

-- Nothing is owed after an event, but after a notification.
abbrev bound_after : ℕ → Event → ℕ
bound_after throttle (notify t) = t + throttle
bound_after throttle e = 0

Step-bound_after :
    {throttle : ℕ} {e : Event} {l m : Loop}
    → Step throttle e l m
    → IsReset l
    → Holds throttle (bound_after throttle e) (time e) m
unfolding receive expire
Step-bound_after (receives now Action.fire p) r = ground arith
Step-bound_after (receives now Action.rearm p) r = ground arith
Step-bound_after (expires now due p q d) r = ground arith
Step-bound_after {throttle} {l = l} (sends now p) r = after_send throttle now l r p
Step-bound_after (stops now p) r = ground arith

IsSpaced-cons :
    (d : ℕ) (e : Event) (es : List Event)
    → NotBefore (bound_after d e) es
    → IsSpaced d es
    → IsSpaced d (e ∷ es)
IsSpaced-cons d (act t a) es h k = k
IsSpaced-cons d (tick t) es h k = k
IsSpaced-cons d (notify t) es h k = (h, k)
IsSpaced-cons d (stop t) es h k = k

Run-IsSpaced_from :
    {throttle t : ℕ} {l m : Loop} {es : List Event}
    → IsReset l
    → Run throttle t l es m
    → IsSpaced throttle es
Run-IsSpaced_from r rest = tt
Run-IsSpaced_from {throttle} r (step {e = e} {es = es} le s run) =
    IsSpaced-cons throttle e es
      (Run-NotBefore (bound_after throttle e) (Step-IsReset s r) (Step-bound_after s r) run)
      (Run-IsSpaced_from (Step-IsReset s r) run)

pub start-IsReset : IsReset start
unfolding start
start-IsReset = ground arith

-- In every run of the loop any two notifications are at least the throttle interval apart.
pub Run-IsSpaced :
    {throttle t : ℕ} {es : List Event} {l : Loop} → Run throttle t start es l → IsSpaced throttle es
Run-IsSpaced run = Run-IsSpaced_from start-IsReset run
