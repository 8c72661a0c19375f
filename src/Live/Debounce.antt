-- ===== src/Live/Debounce.antt =====
-- internal/live_query/runtime.go: the goroutine `debounce` of a live query. The `select`s are a step
-- relation, since the channels, the timer and the end of the query choose the branch.
pub mod Rounds
pub mod Runs
pub mod Credit
use xgql.Prelude.{ℕ, ◌+◌, ◌≤◌, ◌≡◌, ◌≢◌, Bool, true, false, Option, none, some, if◌then◌else◌}

-- liveQueryAction
pub data Action : Type 0 where
  fire rearm : Action

-- Where the loop stands: at the first `select`, at the send on `changesCh`, or returned.
pub data Phase : Type 0 where
  selecting sending closed : Phase

-- The variables of `debounce`; a timer is the time from which its channel may deliver.
pub record Loop : Type 0 where
  pub phase : Phase
  pub timer : Option ℕ
  pub armed : Bool
  pub fired : Bool

unfoldable pub start : Loop
start = record { phase = Phase.selecting; timer = none; armed = false; fired = false }

-- `if timer == nil { timer = lq.clock.After(lq.throttle) }`
unfoldable pub arm_timer : ℕ → Option ℕ → Option ℕ
arm_timer due none = some due
arm_timer due (some t) = some t

-- The `switch` on a received action, at time `now`.
unfoldable pub receive : (throttle now : ℕ) → Action → Loop → Loop
unfolding arm_timer
receive throttle now Action.fire l =
    if l.armed
    then record l { timer = arm_timer (now + throttle) l.timer }
    else record l { fired = true }
receive throttle now Action.rearm l =
    if l.fired
    then record l { timer = arm_timer (now + throttle) l.timer }
    else record l { armed = true }

-- What follows the first `select` when the timer delivered: reset, then the second `select`.
unfoldable pub expire : Loop → Loop
expire l = record { phase = Phase.sending; timer = none; armed = false; fired = false }

-- One step at a time, and what an observer sees of it.
pub data Event : Type 0 where
  act : ℕ → Action → Event  -- an action received
  tick : ℕ → Event  -- the timer delivered
  notify : ℕ → Event  -- a change handed to the reader of `changesCh`
  stop : ℕ → Event  -- `doneCh` was closed

-- At the first `select` the loop receives, or the timer is due; at the second a reader takes the
-- change. The end of the query may be seen at both.
pub data Step (throttle : ℕ) : Event → Loop → Loop → Type 0 where
  receives :
      {l : Loop} (now : ℕ) (a : Action)
      → l.phase ≡ Phase.selecting
      → Step throttle (act now a) l (receive throttle now a l)
  expires :
      {l : Loop} (now due : ℕ)
      → l.phase ≡ Phase.selecting
      → l.timer ≡ some due
      → due ≤ now
      → Step throttle (tick now) l (expire l)
  sends :
      {l : Loop} (now : ℕ)
      → l.phase ≡ Phase.sending
      → Step throttle (notify now) l (record l { phase = Phase.selecting })
  stops :
      {l : Loop} (now : ℕ)
      → l.phase ≢ Phase.closed
      → Step throttle (stop now) l (record l { phase = Phase.closed })
