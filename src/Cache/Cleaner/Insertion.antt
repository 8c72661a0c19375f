-- ===== src/Cache/Cleaner/Insertion.antt =====
-- `add` of internal/cache/cleaner.go finds by binary search the place that a walk would find.
use xgql.Prelude.{
  ℕ, zero, suc, ◌≤◌, ◌<◌, ◌≡◌, refl, ◌∙◌, ap, inl, inr, Bool, true, false, List, [], ◌∷◌, Eq, Ord,
  length, All, arith, if◌then◌else◌, exists_in, Bool-cases, Splits, search-Splits, Splits-unique,
  search, lookup, insert,
}
use xgql.Cache.Cleaner.{Exp, Cleaner, test_at, is_scheduled, insert_at, is_newest, next_ref, add}
use xgql.Cache.Cleaner.Order.{
  before, IsSorted, before_trans, not_before_lem, All-before, same, before_total, same-after,
  exists_in-same,
}

Splits-suc :
    (f g : ℕ → Bool) (n r : ℕ)
    → g 0 ≡ false
    → ((k : ℕ) → g (suc k) ≡ f k)
    → Splits n f r
    → Splits (suc n) g (suc r)
Splits-suc f g n r z s h = record {
  within = omega (arith, h.within);
  fails = λ k lt. fails k lt;
  passes = λ k le lt. passes k le lt;
}
  where
    fails : (k : ℕ) → k < suc r → g k ≡ false
    fails zero lt = z
    fails (suc k) lt = s k ∙ h.fails k (omega arith)

    passes : (k : ℕ) → suc r ≤ k → k < suc n → g k ≡ true
    passes zero le lt = absurd (omega arith)
    passes (suc k) le lt = s k ∙ h.passes k (omega arith) (omega arith)

Splits-monotone :
    {n r : ℕ} (f : ℕ → Bool) → Splits n f r → (a b : ℕ) → a ≤ b → b < n → f a ≡ true → f b ≡ true
Splits-monotone f h a b le lt t = ground (arith, h.fails a, h.passes b)

module _ {K : Type 0} ⦃o : Ord K⦄ where
  -- Insertion by a walk along the list.
  unfoldable pub place : Exp K → List (Exp K) → List (Exp K)
  place x [] = x ∷ []
  place x (y ∷ ys) = if before y x then y ∷ place x ys else x ∷ y ∷ ys

  index : Exp K → List (Exp K) → ℕ
  index x [] = 0
  index x (y ∷ ys) = if before y x then suc (index x ys) else 0

  insert_at-index : (x : Exp K) (ys : List (Exp K)) → insert_at (index x ys) x ys ≡ place x ys
  unfolding insert_at index place
  insert_at-index x [] = refl
  insert_at-index x (y ∷ ys) = elim (Bool-cases (before y x)) [
    | inl p ↦ rw p (ap (◌∷◌ y) (insert_at-index x ys))
    | inr p ↦ rw p
  ]

  -- All entries from some entry on pass the test, if that one does.
  passes_from :
      (x : Exp K) (ys : List (Exp K))
      → All (λ y. before y x ≡ false) ys
      → (k : ℕ) → k < length ys
      → test_at x.at x.key ys k ≡ true
  unfolding test_at
  passes_from x [] h k lt = absurd (omega arith)
  passes_from x (y ∷ ys) h zero lt = rw not_before_lem (ground (arith, h.0))
  passes_from x (y ∷ ys) h (suc k) lt = passes_from x ys h.1 k (omega arith)

  none_before :
      (x y : Exp K) (ys : List (Exp K))
      → before y x ≡ false
      → All (λ z. before y z ≡ true) ys
      → All (λ z. before z x ≡ false) ys
  none_before x y [] h k = tt
  none_before x y (z ∷ ys) h k = (ground (arith, before_trans y z x k.0), none_before x y ys h k.1)

  index-Splits :
      (x : Exp K) (ys : List (Exp K))
      → IsSorted ys
      → Splits (length ys) (test_at x.at x.key ys) (index x ys)
  unfolding index
  index-Splits x [] h = record {
    within = omega arith;
    fails = λ k lt. absurd (omega arith);
    passes = λ k le lt. absurd (omega arith);
  }
  index-Splits x (y ∷ ys) h = elim (Bool-cases (before y x)) [
    | inl p ↦ rw p (
        Splits-suc (test_at x.at x.key ys) (test_at x.at x.key (y ∷ ys)) (length ys) (index x ys)
          (unfold test_at in rw not_before_lem (ground arith)) (λ k. unfold test_at in refl)
          (index-Splits x ys h.1))
    | inr p ↦ rw p (record {
      within = omega arith;
      fails = λ k lt. absurd (omega arith);
      passes = λ k le lt. passes_from x (y ∷ ys) (p, none_before x y ys p h.0) k lt;
    })
  ]

  search-index :
      (x : Exp K) (ys : List (Exp K))
      → IsSorted ys
      → search (length ys) (test_at x.at x.key ys) ≡ index x ys
  search-index x ys h =
      Splits-unique
        (search-Splits (length ys) (test_at x.at x.key ys)
          (Splits-monotone (test_at x.at x.key ys) (index-Splits x ys h)))
        (index-Splits x ys h)

module _ {K : Type 0} ⦃e : Eq K⦄ ⦃o : Ord K⦄ where
  is_scheduled-index :
      (x : Exp K) (ys : List (Exp K))
      → IsSorted ys
      → is_scheduled x.at x.key ys (index x ys) ≡ exists_in (same x) ys
  unfolding is_scheduled index exists_in
  is_scheduled-index x [] h = refl
  is_scheduled-index x (y ∷ ys) h = elim (Bool-cases (before y x)) [
    | inl p ↦ rw (p, same-after x y p) (is_scheduled-index x ys h.1)
    | inr p ↦ elim (Bool-cases (same x y)) [
      | inl s ↦ rw (p, s) (unfold same in s)
      | inr s ↦
          rw (p, s, exists_in-same x ys (All-before x y ys (before_total x y p s) h.0))
            (unfold same in s)
    ]
  ]

module _ {T K : Type 0} ⦃e : Eq K⦄ ⦃o : Ord K⦄ (key_fn : T → K) (obj : T) (at : ℕ) where
  abbrev pub entry : Cleaner T K → Exp K
  entry c = record {
    gen = (next_ref obj (lookup c.refs (key_fn obj))).gen;
    key = key_fn obj;
    at = at;
  }

  -- On sorted entries the binary search of `add` does what a walk does: nothing, if the key is already
  -- scheduled at that time; else it puts the new entry before the first entry that is not before it.
  pub add-eq-place :
      (c : Cleaner T K)
      → IsSorted c.exps
      → add key_fn obj at c ≡ (
          if exists_in (same (entry c)) c.exps then (c, false) else (
            record {
              exps = place (entry c) c.exps;
              refs = insert c.refs (key_fn obj) (next_ref obj (lookup c.refs (key_fn obj)));
            },
            is_newest at c.exps,
          ))
  unfolding add
  add-eq-place c h = rw (
    search-index (entry c) c.exps h,
    is_scheduled-index (entry c) c.exps h,
    insert_at-index (entry c) c.exps,
  )
