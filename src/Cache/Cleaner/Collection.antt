-- ===== src/Cache/Cleaner/Collection.antt =====
-- What `collect` of internal/cache/cleaner.go takes out, seen from one key, and whole runs.
use mathlib.Core.List.{append_assoc, append-nil}
use xgql.Prelude.{
  ℕ, ◌≤◌, ◌<◌, ◌≡◌, refl, ◌∙◌, sym, ap, inl, inr, true, false, Option, none, some, List, [], ◌∷◌,
  ◌++◌, Eq, Ord, ◌==◌, All, arith, ltb, Bool-cases, Option-cases, beq_refl, Dict, lookup,
  lookup-delete,
}
use xgql.Cache.Cleaner.{Exp, Ref, Cleaner, new, add, claim, collect_loop}
use xgql.Cache.Cleaner
use xgql.Cache.Cleaner.Order.{before, IsSorted}
use xgql.Cache.Cleaner.Sorted.{collect_loop-IsSorted, All-collect_loop}
use xgql.Cache.Cleaner.Entries.{Current-cons, entries, Current-le}
use xgql.Cache.Cleaner.Deadlines.{Deadline, remaining, due, of_key}
use xgql.Cache.Cleaner.Refinement.{Agrees, Refines}

module _ {T K : Type 0} ⦃e : Eq K⦄ (key_fn : T → K) where
  abbrev Keyed : Dict K (Ref T) → Type 0
  Keyed refs = (j : K) (r : Ref T) → lookup refs j ≡ some r → key_fn r.obj ≡ j

  of_key-append :
      (k : K) (xs ys : List T)
      → of_key key_fn k (xs ++ ys) ≡ of_key key_fn k xs ++ of_key key_fn k ys
  unfolding of_key
  of_key-append k [] ys = refl
  of_key-append k (x ∷ xs) ys = ground (arith, of_key-append k xs ys)

  claim-Keyed : (x : Exp K) (refs : Dict K (Ref T)) → Keyed refs → Keyed (claim x refs).0
  unfolding claim
  claim-Keyed x refs h j r = ground (arith, lookup-delete refs x.key j, h j r)

  -- An entry of another key does not touch the reference of this one, nor its objects.
  claim_ne :
      (x : Exp K) (refs : Dict K (Ref T)) (k : K)
      → Keyed refs
      → (x.key == k) ≡ false
      → (lookup (claim x refs).0 k ≡ lookup refs k) × (of_key key_fn k (claim x refs).1 ≡ [])
  unfolding claim of_key
  claim_ne x refs k h q = elim (Option-cases (lookup refs x.key)) [
    | inl p ↦ ground (arith, p)
    | inr (r, p) ↦ ground (arith, p, lookup-delete refs x.key k, h x.key r p, q)
  ]

  -- The entry that counts is claimed, and its reference goes.
  claim_last :
      (x : Exp K) (refs : Dict K (Ref T)) (k : K) (r : Ref T)
      → Keyed refs
      → (x.key == k) ≡ true
      → lookup refs k ≡ some r
      → x.gen ≡ r.gen
      → (lookup (claim x refs).0 k ≡ none) × (of_key key_fn k (claim x refs).1 ≡ r.obj ∷ [])
  unfolding claim of_key
  claim_last x refs k r h q p g =
      ground (arith, p, q, e.beq_iff x.key k, lookup-delete refs x.key k, h k r p, beq_refl k)

  -- An entry of an older generation is dropped.
  claim_old :
      (x : Exp K) (refs : Dict K (Ref T)) (k : K) (r : Ref T)
      → (x.key == k) ≡ true
      → lookup refs k ≡ some r
      → x.gen < r.gen
      → claim x refs ≡ (refs, [])
  unfolding claim
  claim_old x refs k r q p g = ground (arith, p, q, e.beq_iff x.key k)

module _ {T K : Type 0} ⦃e : Eq K⦄ ⦃o : Ord K⦄ (key_fn : T → K) where
  at_after :
      (x : Exp K) (ys : List (Exp K)) → All (λ y. before x y ≡ true) ys → All (λ y. x.at ≤ y.at) ys
  unfolding before
  at_after x [] h = tt
  at_after x (y ∷ ys) h = (ground (arith, h.0), at_after x ys h.1)

  -- While the first entry is not due, no deadline is.
  not_due :
      (n now : ℕ) (x : Exp K) (xs : List (Exp K)) (k : K) (ref : Option (Ref T)) (d : Deadline T)
      → now < x.at
      → IsSorted (x ∷ xs)
      → Agrees n (entries k (x ∷ xs)) ref d
      → (remaining now d ≡ d) × (due now d ≡ [])
  not_due n now x xs k none none lt s h = (refl, refl)
  not_due n now x xs k (some r) (some (obj, t)) lt s h =
      let le : x.at ≤ t = Current-le k (x ∷ xs) x.at r.gen t (omega arith, at_after x xs s.0) h.0 in
      ground arith
  not_due n now x xs k none (some d) lt s h = absurd h
  not_due n now x xs k (some r) none lt s h = absurd h

  entries_eq :
      (x : Exp K) (xs : List (Exp K)) (k : K)
      → (x.key == k) ≡ true
      → entries k (x ∷ xs) ≡ x ∷ entries k xs
  unfolding entries
  entries_eq x xs k h = ground arith

  entries_ne :
      (x : Exp K) (xs : List (Exp K)) (k : K)
      → (x.key == k) ≡ false
      → entries k (x ∷ xs) ≡ entries k xs
  unfolding entries
  entries_ne x xs k h = ground arith

  -- What is true of a key after a collection that began with some objects.
  abbrev Collects : ℕ → ℕ → K → List T → Deadline T → Cleaner.Collected T K → Type 0
  Collects n now k objs d r =
      Agrees n (entries k r.cleaner.exps) (lookup r.cleaner.refs k) (remaining now d)
      × (of_key key_fn k r.objs ≡ of_key key_fn k objs ++ due now d)
      × Keyed key_fn r.cleaner.refs

  collect_nil :
      (n now : ℕ) (k : K) (objs : List T) (ref : Option (Ref T)) (d : Deadline T)
      → Agrees {K = K} n [] ref d
      → Agrees {K = K} n [] ref (remaining now d)
        × (of_key key_fn k objs ≡ of_key key_fn k objs ++ due now d)
  collect_nil n now k objs none none h = (refl, sym (append-nil (of_key key_fn k objs)))
  collect_nil n now k objs (some r) (some d) h = absurd h.0
  collect_nil n now k objs none (some d) h = absurd h
  collect_nil n now k objs (some r) none h = absurd h

  -- One entry done: the objects that it gave and those still due make up what is due.
  Collects-shift :
      (n now : ℕ) (k : K) (objs objs' : List T) (d d' : Deadline T) (r : Cleaner.Collected T K)
      → remaining now d' ≡ remaining now d
      → of_key key_fn k objs' ++ due now d' ≡ due now d
      → Collects n now k (objs ++ objs') d' r
      → Collects n now k objs d r
  Collects-shift n now k objs objs' d d' r p q h = (
    rw (← p) h.0,
    h.1
        ∙ ap (λ l. l ++ due now d') (of_key-append key_fn k objs objs')
        ∙ append_assoc (of_key key_fn k objs) (of_key key_fn k objs') (due now d')
        ∙ ap (λ l. of_key key_fn k objs ++ l) q,
    h.2,
  )

  due_at :
      (now : ℕ) (obj : T) (t : ℕ)
      → ltb now t ≡ false
      → (remaining now (some (obj, t)) ≡ none) × (due now (some (obj, t)) ≡ obj ∷ [])
  due_at now obj t h = ground arith

  -- The deadline that is left for a key when an entry is done.
  abbrev Leaves : ℕ → ℕ → K → List (Exp K) → Dict K (Ref T) → List T → Deadline T → Type 0
  Leaves n now k xs refs objs d =
      (d' : Deadline T) × Agrees n (entries k xs) (lookup refs k) d'
      × (remaining now d' ≡ remaining now d)
      × (of_key key_fn k objs ++ due now d' ≡ due now d)

  Leaves-own :
      (n now : ℕ) (k : K) (x : Exp K) (xs : List (Exp K)) (refs : Dict K (Ref T))
      (ref : Option (Ref T)) (d : Deadline T)
      → lookup refs k ≡ ref
      → Keyed key_fn refs
      → ltb now x.at ≡ false
      → (x.key == k) ≡ true
      → Agrees n (x ∷ entries k xs) ref d
      → Leaves n now k xs (claim x refs).0 (claim x refs).1 d
  Leaves-own n now k x xs refs (some r) (some (obj, t)) found h p q a =
      elim (Current-cons x (entries k xs) r.gen t a.0) [
        | inl (empty, gen, at) ↦
            let (gone, got) = claim_last key_fn x refs k r h q found gen in
            let (rem, now_due) = due_at now obj t (rw at at p) in
            (
              none,
              rw (empty, gone) refl,
              sym rem,
              rw (got, now_due, append-nil) (ap (λ l. l ∷ []) a.1),
            )
        | inr (older, cur) ↦
            rw (claim_old key_fn x refs k r q found older)
              (some (obj, t), rw found (cur, a.1, a.2), refl, unfold of_key in refl)
      ]
  Leaves-own n now k x xs refs none none found h p q a = cc
  Leaves-own n now k x xs refs none (some d) found h p q a = absurd a
  Leaves-own n now k x xs refs (some r) none found h p q a = absurd a

  Leaves-at :
      (n now : ℕ) (k : K) (x : Exp K) (xs : List (Exp K)) (refs : Dict K (Ref T)) (d : Deadline T)
      → Keyed key_fn refs
      → ltb now x.at ≡ false
      → Agrees n (entries k (x ∷ xs)) (lookup refs k) d
      → Leaves n now k xs (claim x refs).0 (claim x refs).1 d
  Leaves-at n now k x xs refs d h p a = elim (Bool-cases (x.key == k)) [
    | inr q ↦
        let (u, v) = claim_ne key_fn x refs k h q in
        (d, rw u (rw (entries_ne x xs k q) at a), refl, rw v)
    | inl q ↦
        Leaves-own n now k x xs refs (lookup refs k) d refl h p q (rw (entries_eq x xs k q) at a)
  ]

  collect_at :
      (n now : ℕ) (k : K) (xs : List (Exp K)) (refs : Dict K (Ref T)) (objs : List T)
      (d : Deadline T)
      → IsSorted xs
      → Keyed key_fn refs
      → Agrees n (entries k xs) (lookup refs k) d
      → Collects n now k objs d (collect_loop now xs refs objs)
  unfolding collect_loop
  collect_at n now k [] refs objs d s h a =
      let (p, q) = collect_nil n now k objs (lookup refs k) d (unfold entries in a) in
      (unfold entries in p, q, h)
  collect_at n now k (x ∷ xs) refs objs d s h a = elim (Bool-cases (ltb now x.at)) [
    | inl p ↦
        let (u, v) = not_due n now x xs k (lookup refs k) d (ground arith) s a in
        rw (p, u, v) (a, sym (append-nil (of_key key_fn k objs)), h)
    | inr p ↦
        let (d', a', u, v) = Leaves-at n now k x xs refs d h p a in
        rw p (
          Collects-shift n now k objs (claim x refs).1 d d'
            (collect_loop now xs (claim x refs).0 (objs ++ (claim x refs).1)) u v
            (collect_at n now k xs (claim x refs).0 (objs ++ (claim x refs).1) d' s.1
              (claim-Keyed key_fn x refs h) a'))
  ]

  -- One call of `collect`, seen from any key.
  pub collect-Refines :
      (n latest now : ℕ) (c : Cleaner T K) (k : K) (d : Deadline T)
      → Refines key_fn n latest c k d
      → Refines key_fn n latest (Cleaner.collect now c).cleaner k (remaining now d)
        × (of_key key_fn k (Cleaner.collect now c).objs ≡ due now d)
  unfolding Cleaner.collect of_key
  collect-Refines n latest now c k d h =
      let (a, q, u) = collect_at n now k c.exps c.refs [] d h.sorted h.keyed h.agrees in
      (
        record {
          sorted = collect_loop-IsSorted now c.exps c.refs [] h.sorted;
          no_later = All-collect_loop (λ x. x.at ≤ latest) now c.exps c.refs [] h.no_later;
          keyed = u;
          agrees = a;
        },
        q,
      )
