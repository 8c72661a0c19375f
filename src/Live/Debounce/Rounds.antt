-- ===== src/Live/Debounce/Rounds.antt =====
-- One round of `debounce` of internal/live_query/runtime.go: from a reset to the throttle timer.
use xgql.Prelude.{
  ℕ, ◌+◌, ◌≡◌, refl, Bool, true, false, ◌&&◌, ◌||◌, Option, none, some, List, [], ◌∷◌, arith,
  if◌then◌else◌,
}
use xgql.Live.Debounce.{Action, Loop, start, receive}

-- The actions of a round, each with the time of its receipt.
unfoldable pub receive_all : ℕ → List (ℕ × Action) → Loop → Loop
receive_all throttle [] l = l
receive_all throttle ((now, a) ∷ acts) l = receive_all throttle acts (receive throttle now a l)

abbrev is_fire : Action → Bool
is_fire Action.fire = true
is_fire Action.rearm = false

abbrev is_rearm : Action → Bool
is_rearm Action.fire = false
is_rearm Action.rearm = true

-- The time at which the second of the two kinds of action has come in, given what came in before.
abbrev pub complete_at : Bool → Bool → List (ℕ × Action) → Option ℕ
complete_at f r [] = none
complete_at f r ((now, a) ∷ acts) =
    if (f || is_fire a) && (r || is_rearm a)
    then some now
    else complete_at (f || is_fire a) (r || is_rearm a) acts

abbrev pub later : ℕ → Option ℕ → Option ℕ
later d none = none
later d (some t) = some (t + d)

receive-timer :
    (throttle now due : ℕ) (a : Action) (l : Loop)
    → l.timer ≡ some due
    → (receive throttle now a l).timer ≡ some due
unfolding receive
receive-timer throttle now due Action.fire l h = ground arith
receive-timer throttle now due Action.rearm l h = ground arith

receive_all-timer :
    (throttle due : ℕ) (acts : List (ℕ × Action)) (l : Loop)
    → l.timer ≡ some due
    → (receive_all throttle acts l).timer ≡ some due
unfolding receive_all
receive_all-timer throttle due [] l h = h
receive_all-timer throttle due ((now, a) ∷ acts) l h =
    receive_all-timer throttle due acts (receive throttle now a l)
      (receive-timer throttle now due a l h)

-- The loop before the round is complete: `fired` and `armed` say what came in.
Waiting : Bool → Bool → Loop → Type 0
Waiting f r l = (l.timer ≡ none) × (l.fired ≡ f) × (l.armed ≡ r) × ((f && r) ≡ false)

receive_all-Waiting :
    (throttle : ℕ) (acts : List (ℕ × Action)) (f r : Bool) (l : Loop)
    → Waiting f r l
    → (receive_all throttle acts l).timer ≡ later throttle (complete_at f r acts)
unfolding receive_all Waiting
receive_all-Waiting throttle [] f r l w = w.0
receive_all-Waiting throttle ((now, Action.fire) ∷ acts) f true l w =
    rw
      (receive_all-timer throttle (now + throttle) acts (receive throttle now Action.fire l)
        (unfold receive in ground arith))
      (ground arith)
receive_all-Waiting throttle ((now, Action.fire) ∷ acts) f false l w =
    rw
      (receive_all-Waiting throttle acts true false (receive throttle now Action.fire l)
        (unfold receive in ground arith))
      (ground arith)
receive_all-Waiting throttle ((now, Action.rearm) ∷ acts) true r l w =
    rw
      (receive_all-timer throttle (now + throttle) acts (receive throttle now Action.rearm l)
        (unfold receive in ground arith))
      (ground arith)
receive_all-Waiting throttle ((now, Action.rearm) ∷ acts) false r l w =
    rw
      (receive_all-Waiting throttle acts false true (receive throttle now Action.rearm l)
        (unfold receive in ground arith))
      (ground arith)

-- Whatever actions come in after a reset, in whatever order and however often, the throttle timer is
-- set exactly when there was a fire and a rearm among them, and it is due `throttle` after the
-- action that completed the pair: no change is lost, and none is announced before a rearm.
timer-receive_all :
    (throttle : ℕ) (acts : List (ℕ × Action))
    → (receive_all throttle acts start).timer ≡ later throttle (complete_at false false acts)
unfolding start Waiting
timer-receive_all throttle acts =
    receive_all-Waiting throttle acts false false start (refl, refl, refl, refl)
