-- ===== src/Cache/Cleaner/Loop/Wakeup.antt =====
-- A signal of internal/cache/cleaner.go that comes while the loop is cleaning up is lost.
use xgql.Prelude.{
  ℕ, ◌+◌, ◌≤◌, ◌≡◌, refl, ◌⊎◌, inl, inr, Bool, false, ◌||◌, none, List, [], ◌∷◌, Eq, Ord, is_empty,
  arith, Bool-cases, exists_in,
}
use xgql.Cache.Cleaner.{Exp, Cleaner, add, is_newest}
use xgql.Cache.Cleaner.Order.{IsSorted, before, same}
use xgql.Cache.Cleaner.Insertion.{place, entry, add-eq-place}
use xgql.Cache.Cleaner.Sorted.{add-IsSorted}
use xgql.Cache.Cleaner.Loop.{
  Phase, Loop, next_wakeup, schedule, cleaned, Step, schedules, wakes, collects, cleans, cancels,
}

-- The first entry expires at the time.
abbrev pub FirstAt : {K : Type 0} → ℕ → List (Exp K) → Type 0
FirstAt t [] = ⊥
FirstAt t (x ∷ xs) = x.at ≡ t

-- The loop waits, with no timer, or has ended; and an entry is there that expires at `t`.
pub record IsStuck {T K : Type 0} ⦃o : Ord K⦄ (t : ℕ) (l : Loop T K) : Type 0 where
  pub idle : (l.phase ≡ Phase.waiting) ⊎ (l.phase ≡ Phase.stopped)
  pub no_timer : l.wakeup ≡ none
  pub sorted : IsSorted l.cleaner.exps
  pub first_at : FirstAt t l.cleaner.exps

module _ {T K : Type 0} ⦃e : Eq K⦄ ⦃o : Ord K⦄ (key_fn : T → K) where
  FirstAt-place :
      (t : ℕ) (x : Exp K) (xs : List (Exp K)) → t ≤ x.at → FirstAt t xs → FirstAt t (place x xs)
  unfolding place before
  FirstAt-place t x [] le h = absurd h
  FirstAt-place t x (y ∷ ys) le h = ground arith

  not_newest : (t at : ℕ) (xs : List (Exp K)) → t ≤ at → FirstAt t xs → is_newest at xs ≡ false
  unfolding is_newest
  not_newest t at [] le h = absurd h
  not_newest t at (x ∷ xs) le h = ground arith

  add_later :
      (t at : ℕ) (obj : T) (c : Cleaner T K)
      → IsSorted c.exps
      → t ≤ at
      → FirstAt t c.exps
      → FirstAt t (add key_fn obj at c).0.exps × ((add key_fn obj at c).1 ≡ false)
  add_later t at obj c s le h =
      elim (Bool-cases (exists_in (same (entry key_fn obj at c)) c.exps)) [
        | inl p ↦ rw (add-eq-place key_fn obj at c s) (rw p (h, refl))
        | inr p ↦ rw (add-eq-place key_fn obj at c s) (
            rw p (FirstAt-place t (entry key_fn obj at c) c.exps le h, not_newest t at c.exps le h))
      ]

  add_first :
      (at : ℕ) (obj : T) (c : Cleaner T K) → c.exps ≡ [] → FirstAt at (add key_fn obj at c).0.exps
  unfolding exists_in place
  add_first at obj c q =
      let s : IsSorted c.exps = rw q tt in rw (add-eq-place key_fn obj at c s) (rw q refl)

module _ {T K : Type 0} ⦃e : Eq K⦄ ⦃o : Ord K⦄ (key_fn : T → K) (clean_fn : List T → Bool)
    (tick : ℕ) where
  -- The step schedules nothing before the time.
  abbrev pub IsLater : ℕ → {l m : Loop T K} → Step key_fn clean_fn tick l m → Type 0
  IsLater t (schedules now obj exp) = t ≤ now + exp
  IsLater t _ = Unit

  pub data Run (t : ℕ) (l : Loop T K) : Loop T K → Type 0 where
    stop : Run t l l
    more :
        {m n : Loop T K} → Run t l m → (s : Step key_fn clean_fn tick m n) → IsLater t s → Run t l n

  schedule-IsStuck :
      (t now exp : ℕ) (obj : T) (l : Loop T K)
      → t ≤ now + exp
      → IsStuck t l
      → IsStuck t (schedule key_fn clean_fn tick now obj exp l)
  unfolding schedule
  schedule-IsStuck t now exp obj l le h =
      let (first, quiet) = add_later key_fn t (now + exp) obj l.cleaner h.sorted le h.first_at in
      record {
        idle = rw quiet h.idle;
        no_timer = h.no_timer;
        sorted = add-IsSorted key_fn obj (now + exp) l.cleaner h.sorted;
        first_at = first;
      }

  Step-IsStuck :
      (t : ℕ) {l m : Loop T K} (s : Step key_fn clean_fn tick l m)
      → IsLater t s
      → IsStuck t l
      → IsStuck t m
  Step-IsStuck t {l = l} (schedules now obj exp) le h = schedule-IsStuck t now exp obj l le h
  Step-IsStuck t (wakes now due p w d) le h = absurd (ground (arith, h.no_timer))
  Step-IsStuck t (collects now p) le h = absurd (ground (arith, h.idle))
  Step-IsStuck t (cleans now objs exp p) le h = absurd (ground (arith, h.idle))
  Step-IsStuck t (cancels p) le h = record {
    idle = inr refl;
    no_timer = h.no_timer;
    sorted = h.sorted;
    first_at = h.first_at;
  }

  Run-IsStuck : (t : ℕ) {l m : Loop T K} → IsStuck t l → Run t l m → IsStuck t m
  Run-IsStuck t h stop = h
  Run-IsStuck t h (more r s le) = Step-IsStuck t s le (Run-IsStuck t h r)

  missed-IsStuck :
      (now now' exp : ℕ) (obj : T) (objs : List T) (l : Loop T K)
      → l.phase ≡ Phase.cleaning objs none
      → l.wakeup ≡ none
      → l.cleaner.exps ≡ []
      → IsStuck (now + exp) (
          cleaned key_fn clean_fn tick now' objs none (schedule key_fn clean_fn tick now obj exp l))
  unfolding schedule cleaned next_wakeup
  missed-IsStuck now now' exp obj objs l p w q =
      let first = add_first key_fn (now + exp) obj l.cleaner q in
      let s : IsSorted l.cleaner.exps = rw q tt in
      let s' = add-IsSorted key_fn obj (now + exp) l.cleaner s in
      elim (Bool-cases (is_empty objs || clean_fn objs)) [
        | inl ok ↦ rw ok (record { idle = inl refl; no_timer = w; sorted = s'; first_at = first })
        | inr failed ↦
            rw failed (record { idle = inr refl; no_timer = w; sorted = s'; first_at = first })
      ]

  -- An object that is scheduled while the loop cleans up the last entries is never cleaned up, unless
  -- a later call schedules something that expires sooner: whatever `Schedule`s come in after it with
  -- no earlier expiry, and whatever else happens, the loop never wakes up again, and some entry waits.
  pub missed_signal :
      (now now' exp : ℕ) (obj : T) (objs : List T) (l m : Loop T K)
      → l.phase ≡ Phase.cleaning objs none
      → l.wakeup ≡ none
      → l.cleaner.exps ≡ []
      → Run
          (now + exp)
          (cleaned key_fn clean_fn tick now' objs none
            (schedule key_fn clean_fn tick now obj exp l))
          m
      → IsStuck (now + exp) m
  missed_signal now now' exp obj objs l m p w q r =
      Run-IsStuck (now + exp) (missed-IsStuck now now' exp obj objs l p w q) r
