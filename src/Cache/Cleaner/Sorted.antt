-- ===== src/Cache/Cleaner/Sorted.antt =====
-- The operations of internal/cache/cleaner.go keep the entries in order.
use xgql.Prelude.{
  ℕ, ◌≡◌, inl, inr, true, false, List, [], ◌∷◌, Eq, Ord, All, arith, ltb, exists_in, Bool-cases,
  Dict, ◌++◌,
}
use xgql.Cache.Cleaner.{Exp, Ref, Cleaner, add, claim, collect_loop}
use xgql.Cache.Cleaner.Order.{before, IsSorted, All-before, same, before_total}
use xgql.Cache.Cleaner.Insertion.{place, entry, add-eq-place}

module _ {K : Type 0} ⦃o : Ord K⦄ where
  pub All-place :
      (P : Exp K → Type 0) (x : Exp K) (ys : List (Exp K)) → P x → All P ys → All P (place x ys)
  unfolding place
  All-place P x [] h k = (h, tt)
  All-place P x (y ∷ ys) h k = elim (Bool-cases (before y x)) [
    | inl p ↦ rw p (k.0, All-place P x ys h k.1)
    | inr p ↦ rw p (h, k)
  ]

  pub place-IsSorted :
      ⦃e : Eq K⦄ (x : Exp K) (ys : List (Exp K))
      → IsSorted ys
      → exists_in (same x) ys ≡ false
      → IsSorted (place x ys)
  unfolding place exists_in
  place-IsSorted x [] h n = (tt, tt)
  place-IsSorted x (y ∷ ys) h n = elim (Bool-cases (before y x)) [
    | inl p ↦
        rw p (All-place (λ z. before y z ≡ true) x ys p h.0, place-IsSorted x ys h.1 (ground arith))
    | inr p ↦
        let q : before x y ≡ true = before_total x y p (ground arith) in
        rw p ((q, All-before x y ys q h.0), h)
  ]

module _ {T K : Type 0} ⦃e : Eq K⦄ ⦃o : Ord K⦄ where
  -- `add` keeps the entries strictly sorted by time and key.
  pub add-IsSorted :
      (key_fn : T → K) (obj : T) (at : ℕ) (c : Cleaner T K)
      → IsSorted c.exps
      → IsSorted (add key_fn obj at c).0.exps
  add-IsSorted key_fn obj at c h =
      elim (Bool-cases (exists_in (same (entry key_fn obj at c)) c.exps)) [
        | inl p ↦ rw (add-eq-place key_fn obj at c h) (rw p h)
        | inr p ↦
            rw (add-eq-place key_fn obj at c h)
              (rw p (place-IsSorted (entry key_fn obj at c) c.exps h p))
      ]

  pub collect_loop-IsSorted :
      (now : ℕ) (xs : List (Exp K)) (refs : Dict K (Ref T)) (objs : List T)
      → IsSorted xs
      → IsSorted (collect_loop now xs refs objs).cleaner.exps
  unfolding collect_loop
  collect_loop-IsSorted now [] refs objs h = tt
  collect_loop-IsSorted now (x ∷ xs) refs objs h = elim (Bool-cases (ltb now x.at)) [
    | inl p ↦ rw p h
    | inr p ↦ rw p (collect_loop-IsSorted now xs (claim x refs).0 (objs ++ (claim x refs).1) h.1)
  ]

  pub All-collect_loop :
      (P : Exp K → Type 0) (now : ℕ) (xs : List (Exp K)) (refs : Dict K (Ref T)) (objs : List T)
      → All P xs
      → All P (collect_loop now xs refs objs).cleaner.exps
  unfolding collect_loop
  All-collect_loop P now [] refs objs h = tt
  All-collect_loop P now (x ∷ xs) refs objs h = elim (Bool-cases (ltb now x.at)) [
    | inl p ↦ rw p h
    | inr p ↦ rw p (All-collect_loop P now xs (claim x refs).0 (objs ++ (claim x refs).1) h.1)
  ]
