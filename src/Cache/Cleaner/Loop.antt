-- ===== src/Cache/Cleaner/Loop.antt =====
-- The goroutine `Start` of internal/cache/cleaner.go and the calls of `Schedule` beside it. The signal
-- is an unbuffered channel and `Schedule` does not wait: only a loop that stands at its `select` gets it.
pub mod Wakeup
use xgql.Prelude.{
  ℕ, ◌+◌, ◌-◌, ◌≤◌, ◌≡◌, Bool, true, false, ◌&&◌, ◌||◌, not, Option, none, some, List, [], ◌∷◌, Eq,
  Ord, ltb, is_empty, if◌then◌else◌,
}
use xgql.Cache.Cleaner.{Cleaner, new, add, collect, Collected}

-- Where the loop stands: at the `select`, before `collect`, with what `collect` returned, or returned.
pub data Phase (T : Type 0) : Type 0 where
  waiting woken stopped : Phase T
  cleaning : List T → Option ℕ → Phase T

-- The cleaner with the local `wakeup`, the time from which its channel may deliver.
pub record Loop (T K : Type 0) : Type 0 where
  pub cleaner : Cleaner T K
  pub wakeup : Option ℕ
  pub phase : Phase T

unfoldable pub start : {T K : Type 0} → Loop T K
start = record { cleaner = new; wakeup = none; phase = Phase.waiting }

abbrev pub is_waiting : {T : Type 0} → Phase T → Bool
is_waiting Phase.waiting = true
is_waiting _ = false

-- What the loop does with the time of the next expiry: `after` is at least a tick.
unfoldable pub next_wakeup : (tick now : ℕ) → Option ℕ → Option ℕ → Option ℕ
next_wakeup tick now none wakeup = wakeup
next_wakeup tick now (some exp) wakeup =
    some (now + (if ltb (exp - now) tick then tick else exp - now))

module _ {T K : Type 0} ⦃e : Eq K⦄ ⦃o : Ord K⦄ (key_fn : T → K) (clean_fn : List T → Bool)
    (tick : ℕ) where
  -- Schedule, for an `exp` that is not negative.
  unfoldable pub schedule : ℕ → T → ℕ → Loop T K → Loop T K
  schedule now obj exp l =
      let (c, newest) = add key_fn obj (now + exp) l.cleaner in
      record l {
        cleaner = c;
        phase = if newest && is_waiting l.phase then Phase.woken else l.phase;
      }

  unfoldable pub collected : ℕ → Loop T K → Loop T K
  collected now l =
      let r = collect now l.cleaner in
      record l { cleaner = r.cleaner; phase = Phase.cleaning r.objs r.exp }

  -- `cleanFn`, where there is something to clean up, and the new timer; `clean_fn` is true for nil.
  unfoldable pub cleaned : ℕ → List T → Option ℕ → Loop T K → Loop T K
  cleaned now objs exp l =
      if is_empty objs || clean_fn objs
      then record l { phase = Phase.waiting; wakeup = next_wakeup tick now exp l.wakeup }
      else record l { phase = Phase.stopped }

  pub data Step : Loop T K → Loop T K → Type 0 where
    schedules : {l : Loop T K} (now : ℕ) (obj : T) (exp : ℕ) → Step l (schedule now obj exp l)
    wakes :
        {l : Loop T K} (now t : ℕ)
        → l.phase ≡ Phase.waiting
        → l.wakeup ≡ some t
        → t ≤ now
        → Step l (record l { wakeup = none; phase = Phase.woken })
    collects : {l : Loop T K} (now : ℕ) → l.phase ≡ Phase.woken → Step l (collected now l)
    cleans :
        {l : Loop T K} (now : ℕ) (objs : List T) (exp : Option ℕ)
        → l.phase ≡ Phase.cleaning objs exp
        → Step l (cleaned now objs exp l)
    cancels : {l : Loop T K} → l.phase ≡ Phase.waiting → Step l (record l { phase = Phase.stopped })
