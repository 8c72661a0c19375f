-- ===== src/Cache/Cleaner/Histories.antt =====
-- Whole histories of calls of `Schedule` and `collect` of internal/cache/cleaner.go.
use Prim.Native.Nat.{◌^◌}
use xgql.Prelude.{
  ℕ, ◌+◌, ◌≤◌, ◌<◌, ◌≡◌, refl, ap, List, [], ◌∷◌, Eq, Ord, ◌==◌, none, arith, if◌then◌else◌, length,
  map, lookup,
}
use xgql.Cache.Cleaner
use xgql.Cache.Cleaner.{Cleaner, new, add}
use xgql.Cache.Cleaner.Entries.{entries}
use xgql.Cache.Cleaner.Deadlines.{
  Deadline, reschedule, remaining, due, Op, schedule, collect, of_key, cleaned,
}
use xgql.Cache.Cleaner.Refinement.{Refines, add-Refines}
use xgql.Cache.Cleaner.Collection.{collect-Refines}

-- Schedules do not go back in time.
abbrev pub InOrder : {T : Type 0} → ℕ → List (Op T) → Type 0
InOrder latest [] = Unit
InOrder latest (schedule obj at ∷ ops) = (latest ≤ at) × InOrder at ops
InOrder latest (collect now ∷ ops) = InOrder latest ops

module _ {T K : Type 0} ⦃e : Eq K⦄ ⦃o : Ord K⦄ (key_fn : T → K) where
  -- What each collection returns.
  unfoldable pub run : Cleaner T K → List (Op T) → List (List T)
  run c [] = []
  run c (schedule obj at ∷ ops) = run (add key_fn obj at c).0 ops
  run c (collect now ∷ ops) = (Cleaner.collect now c).objs ∷ run (Cleaner.collect now c).cleaner ops

  new-Refines : (k : K) → Refines key_fn 0 0 new k none
  unfolding new entries lookup
  new-Refines k = record { sorted = tt; no_later = tt; keyed = λ j r p. cc; agrees = refl }

  run-cleaned :
      (k : K) (ops : List (Op T)) (n latest : ℕ) (c : Cleaner T K) (d : Deadline T)
      → n + length ops < 2 ^ 64
      → InOrder latest ops
      → Refines key_fn n latest c k d
      → map (of_key key_fn k) (run c ops) ≡ cleaned key_fn k d ops
  unfolding run cleaned
  run-cleaned k [] n latest c d lt h r = refl
  run-cleaned k (schedule obj at ∷ ops) n latest c d lt h r =
      run-cleaned k ops (n + 1) at (add key_fn obj at c).0
        (if key_fn obj == k then reschedule obj at d else d) (omega arith) h.1
        (add-Refines key_fn n latest at obj c k d (omega arith) h.0 r)
  run-cleaned k (collect now ∷ ops) n latest c d lt h r =
      let (r', p) = collect-Refines key_fn n latest now c k d r in
      rw p (
        ap (λ l. due now d ∷ l)
          (run-cleaned k ops n latest (Cleaner.collect now c).cleaner (remaining now d)
            (omega arith) h r'))

  -- Over any fewer than 2^64 calls in which schedules do not go back in time, each collection cleans
  -- up of each key exactly what the deadlines of that key alone say: the object last scheduled, once,
  -- when its last deadline has come, and nothing before.
  pub run-eq-cleaned :
      (k : K) (ops : List (Op T))
      → length ops < 2 ^ 64
      → InOrder 0 ops
      → map (of_key key_fn k) (run new ops) ≡ cleaned key_fn k none ops
  run-eq-cleaned k ops lt h = run-cleaned k ops 0 0 new none (omega arith) h (new-Refines k)
