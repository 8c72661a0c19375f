-- ===== src/Tests/Debounce.antt =====
-- Runs of `debounce` of internal/live_query/runtime.go with a throttle of 100.
use xgql.Prelude.{ℕ, ◌≡◌, refl, false, none, some, List, [], ◌∷◌, arith}
use xgql.Live.Debounce.{
  Action, Phase, Loop, start, arm_timer, receive, expire, Event, act, tick, notify, receives,
  expires, sends,
}
use xgql.Live.Debounce.Rounds.{receive_all}
use xgql.Live.Debounce.Runs.{Run, rest, step, IsSpaced, Run-IsSpaced}

abbrev round : List (ℕ × Action)
round = (5, Action.fire) ∷ (6, Action.fire) ∷ (9, Action.rearm) ∷ (20, Action.fire) ∷ []

round_timer : (receive_all 100 round start).timer ≡ some 109
unfolding receive_all receive arm_timer start
round_timer = refl

abbrev events : List Event
events = act 5 Action.fire ∷ act 9 Action.rearm ∷ tick 110 ∷ notify 111 ∷ []

after_events : Loop
after_events = record { phase = Phase.selecting; timer = none; armed = false; fired = false }

round-Run : Run 100 0 start events after_events
unfolding start receive arm_timer expire after_events
round-Run = step (omega arith) (receives 5 Action.fire refl) (
    step (omega arith) (receives 9 Action.rearm refl) (
      step (omega arith) (expires 110 109 refl refl (omega arith))
        (step (omega arith) (sends 111 refl) rest)))

Run-IsSpaced_example : IsSpaced 100 events
Run-IsSpaced_example = Run-IsSpaced round-Run
