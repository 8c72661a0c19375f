-- ===== src/Cache/Cleaner/Refinement.antt =====
-- internal/cache/cleaner.go keeps its promise key by key, as long as schedules do not go back in time.
use Prim.Native.Nat.{◌^◌}
use xgql.Prelude.{
  ℕ, ◌+◌, ◌≤◌, ◌<◌, ◌≡◌, refl, ◌∙◌, sym, inl, inr, true, false, Option, none, some, List, [], ◌∷◌,
  ◌++◌, Eq, Ord, ◌==◌, All, arith, if◌then◌else◌, exists_in, Bool-cases, Dict, lookup, insert,
  lookup-insert,
}
use xgql.Cache.Cleaner.{Exp, Ref, Cleaner, add, next_ref}
use xgql.Cache.Cleaner.Order.{IsSorted, same}
use xgql.Cache.Cleaner.Insertion.{place, entry, add-eq-place}
use xgql.Cache.Cleaner.Sorted.{All-place, place-IsSorted}
use xgql.Cache.Cleaner.Entries.{
  Current, Current-append, entries, entries-place, entries-place_ne, exists_in-Current,
  entries_of_exists,
}
use xgql.Cache.Cleaner.Deadlines.{Deadline, reschedule}

-- What the entries and the reference of a key have to do with its deadline, after `n` schedules.
abbrev pub Agrees : {T K : Type 0} → ℕ → List (Exp K) → Option (Ref T) → Deadline T → Type 0
Agrees n xs none none = xs ≡ []
Agrees n xs (some r) (some (obj, t)) = Current xs r.gen t × (r.obj ≡ obj) × (r.gen ≤ n)
Agrees n xs _ _ = ⊥

abbrev scheduled : {T K : Type 0} → K → T → ℕ → Option (Ref T) → Exp K
scheduled k obj at ref = record { gen = (next_ref obj ref).gen; key = k; at = at }

next_gen :
    {T : Type 0} (n : ℕ) (obj : T) (r : Ref T)
    → r.gen ≤ n
    → n + 1 < 2 ^ 64
    → (next_ref obj (some r)).gen ≡ r.gen + 1
unfolding next_ref
next_gen n obj r h lt = ground arith

next_obj : {T : Type 0} (obj : T) (ref : Option (Ref T)) → (next_ref obj ref).obj ≡ obj
unfolding next_ref
next_obj obj none = refl
next_obj obj (some r) = refl

module _ {T K : Type 0} ⦃e : Eq K⦄ ⦃o : Ord K⦄ where
  reschedule-same :
      (n : ℕ) (k : K) (obj : T) (at : ℕ) (xs : List (Exp K)) (ref : Option (Ref T)) (d : Deadline T)
      → IsSorted xs
      → All (λ x. x.at ≤ at) xs
      → exists_in (same (scheduled k obj at ref)) xs ≡ true
      → Agrees n (entries k xs) ref d
      → reschedule obj at d ≡ d
  reschedule-same n k obj at xs none none s l p h =
      absurd (entries_of_exists (scheduled k obj at none) xs p h)
  reschedule-same n k obj at xs (some r) (some (old, t)) s l p h =
      rw (sym (exists_in-Current (scheduled k obj at (some r)) xs r.gen t s l h.0) ∙ p)
  reschedule-same n k obj at xs none (some d) s l p h = absurd h
  reschedule-same n k obj at xs (some r) none s l p h = absurd h

  Agrees-schedule :
      (n : ℕ) (k : K) (obj : T) (at : ℕ) (xs : List (Exp K)) (ref : Option (Ref T)) (d : Deadline T)
      → n + 1 < 2 ^ 64
      → IsSorted xs
      → All (λ x. x.at ≤ at) xs
      → exists_in (same (scheduled k obj at ref)) xs ≡ false
      → Agrees n (entries k xs) ref d
      → Agrees
          (n + 1)
          (entries k xs ++ scheduled k obj at ref ∷ [])
          (some (next_ref obj ref))
          (reschedule obj at d)
  Agrees-schedule n k obj at xs none none lt s l p h =
      rw h (unfold next_ref in ((refl, refl), refl, omega arith))
  Agrees-schedule n k obj at xs (some r) (some (old, t)) lt s l p h =
      rw (sym (exists_in-Current (scheduled k obj at (some r)) xs r.gen t s l h.0) ∙ p) (
        Current-append (entries k xs) (scheduled k obj at (some r)) r.gen t h.0
            (omega (arith, next_gen n obj r h.2 lt)),
        next_obj obj (some r),
        omega (arith, next_gen n obj r h.2 lt),
      )
  Agrees-schedule n k obj at xs none (some d) lt s l p h = absurd h
  Agrees-schedule n k obj at xs (some r) none lt s l p h = absurd h

  Agrees-suc :
      (n : ℕ) (xs : List (Exp K)) (ref : Option (Ref T)) (d : Deadline T)
      → Agrees n xs ref d
      → Agrees (n + 1) xs ref d
  Agrees-suc n xs none none h = h
  Agrees-suc n xs (some r) (some (obj, t)) h = (h.0, h.1, omega arith)
  Agrees-suc n xs none (some d) h = absurd h
  Agrees-suc n xs (some r) none h = absurd h

module _ {T K : Type 0} ⦃e : Eq K⦄ ⦃o : Ord K⦄ (key_fn : T → K) where
  pub record Refines (n latest : ℕ) (c : Cleaner T K) (k : K) (d : Deadline T) : Type 0 where
    pub sorted : IsSorted c.exps
    pub no_later : All (λ x. x.at ≤ latest) c.exps
    pub keyed : (j : K) (r : Ref T) → lookup c.refs j ≡ some r → key_fn r.obj ≡ j
    pub agrees : Agrees n (entries k c.exps) (lookup c.refs k) d

  later_bound :
      (a b : ℕ) (xs : List (Exp K)) → a ≤ b → All (λ x. x.at ≤ a) xs → All (λ x. x.at ≤ b) xs
  later_bound a b [] le h = tt
  later_bound a b (x ∷ xs) le h = (omega arith, later_bound a b xs le h.1)

  keyed_insert :
      (refs : Dict K (Ref T)) (obj : T) (ref : Option (Ref T))
      → ((j : K) (r : Ref T) → lookup refs j ≡ some r → key_fn r.obj ≡ j)
      → (j : K) (r : Ref T) → lookup (insert refs (key_fn obj) (next_ref obj ref)) j ≡ some r
      → key_fn r.obj ≡ j
  keyed_insert refs obj ref h j r p = ground (
    arith,
    lookup-insert refs (key_fn obj) j (next_ref obj ref),
    e.beq_iff (key_fn obj) j,
    next_obj obj ref,
    h j r,
  )

  Agrees-self :
      (n at : ℕ) (obj : T) (c : Cleaner T K) (d : Deadline T)
      → n + 1 < 2 ^ 64
      → All (λ x. x.at ≤ at) c.exps
      → exists_in (same (entry key_fn obj at c)) c.exps ≡ false
      → IsSorted c.exps
      → Agrees n (entries (key_fn obj) c.exps) (lookup c.refs (key_fn obj)) d
      → Agrees
          (n + 1)
          (entries (key_fn obj) (place (entry key_fn obj at c) c.exps))
          (some (next_ref obj (lookup c.refs (key_fn obj))))
          (reschedule obj at d)
  Agrees-self n at obj c d lt late p s h =
      rw (entries-place (entry key_fn obj at c) c.exps s late p)
        (Agrees-schedule n (key_fn obj) obj at c.exps (lookup c.refs (key_fn obj)) d lt s late p h)

  add_new :
      (n latest at : ℕ) (obj : T) (c : Cleaner T K) (k : K) (d : Deadline T)
      → n + 1 < 2 ^ 64
      → All (λ x. x.at ≤ at) c.exps
      → exists_in (same (entry key_fn obj at c)) c.exps ≡ false
      → Refines n latest c k d
      → Agrees
          (n + 1)
          (entries k (place (entry key_fn obj at c) c.exps))
          (lookup (insert c.refs (key_fn obj) (next_ref obj (lookup c.refs (key_fn obj)))) k)
          (if key_fn obj == k then reschedule obj at d else d)
  add_new n latest at obj c k d lt late p h = elim (Bool-cases (key_fn obj == k)) [
    | inr q ↦
        rw (lookup-insert, q, entries-place_ne k (entry key_fn obj at c) c.exps q)
          (Agrees-suc n (entries k c.exps) (lookup c.refs k) d h.agrees)
    | inl q ↦
        let eq : key_fn obj ≡ k = (e.beq_iff (key_fn obj) k).0 q in
        rw (lookup-insert, q, ← eq)
          (Agrees-self n at obj c d lt late p h.sorted (rw (← eq) at h.agrees))
  ]

  add_old :
      (n at : ℕ) (obj : T) (c : Cleaner T K) (k : K) (d : Deadline T)
      → All (λ x. x.at ≤ at) c.exps
      → exists_in (same (entry key_fn obj at c)) c.exps ≡ true
      → IsSorted c.exps
      → Agrees n (entries k c.exps) (lookup c.refs k) d
      → (if key_fn obj == k then reschedule obj at d else d) ≡ d
  add_old n at obj c k d late p s h = elim (Bool-cases (key_fn obj == k)) [
    | inr q ↦ rw q
    | inl q ↦
        let eq : key_fn obj ≡ k = (e.beq_iff (key_fn obj) k).0 q in
        rw q (
          reschedule-same n (key_fn obj) obj at c.exps (lookup c.refs (key_fn obj)) d s late p
            (rw (← eq) at h))
  ]

  -- One call of `add`, seen from any key.
  pub add-Refines :
      (n latest at : ℕ) (obj : T) (c : Cleaner T K) (k : K) (d : Deadline T)
      → n + 1 < 2 ^ 64
      → latest ≤ at
      → Refines n latest c k d
      → Refines
          (n + 1)
          at
          (add key_fn obj at c).0
          k
          (if key_fn obj == k then reschedule obj at d else d)
  add-Refines n latest at obj c k d lt le h =
      let late : All (λ x. x.at ≤ at) c.exps = later_bound latest at c.exps le h.no_later in
      elim (Bool-cases (exists_in (same (entry key_fn obj at c)) c.exps)) [
        | inl p ↦ rw (add-eq-place key_fn obj at c h.sorted) (
            rw (p, add_old n at obj c k d late p h.sorted h.agrees)
              (record {
                sorted = h.sorted;
                no_later = late;
                keyed = h.keyed;
                agrees = Agrees-suc n (entries k c.exps) (lookup c.refs k) d h.agrees;
              }))
        | inr p ↦ rw (add-eq-place key_fn obj at c h.sorted) (
            rw p (record {
              sorted = place-IsSorted (entry key_fn obj at c) c.exps h.sorted p;
              no_later =
                  All-place (λ x. x.at ≤ at) (entry key_fn obj at c) c.exps (omega arith) late;
              keyed = keyed_insert c.refs obj (lookup c.refs (key_fn obj)) h.keyed;
              agrees = add_new n latest at obj c k d lt late p h;
            }))
      ]
