-- ===== src/Cache/Cleaner/Order.antt =====
-- The order of the entries of internal/cache/cleaner.go: by time, and by key at the same time.
use xgql.Prelude.{
  ◌≡◌, Bool, true, false, ◌&&◌, ◌||◌, not, List, [], ◌∷◌, Eq, Ord, ◌==◌, ltb, nat_beq, All, arith,
  exists_in,
}
use xgql.Cache.Cleaner.{Exp, not_before}

module _ {K : Type 0} ⦃o : Ord K⦄ where
  unfoldable pub before : Exp K → Exp K → Bool
  before x y = ltb x.at y.at || (nat_beq x.at y.at && o.less x.key y.key)

  -- Strictly sorted: no two entries have the same time and key.
  abbrev pub IsSorted : List (Exp K) → Type 0
  IsSorted [] = Unit
  IsSorted (x ∷ xs) = All (λ y. before x y ≡ true) xs × IsSorted xs

  pub before_trans : (x y z : Exp K) → before x y ≡ true → before y z ≡ true → before x z ≡ true
  unfolding before
  before_trans x y z h k = ground (arith, o.less_trans x.key y.key z.key)

  pub before_irrefl : (x : Exp K) → before x x ≡ false
  unfolding before
  before_irrefl x = ground (arith, o.less_irrefl x.key)

  pub not_before_lem : (x y : Exp K) → not_before x.at x.key y ≡ not (before y x)
  unfolding not_before before
  not_before_lem x y = ground arith

  pub All-before :
      (x y : Exp K) (ys : List (Exp K))
      → before x y ≡ true
      → All (λ z. before y z ≡ true) ys
      → All (λ z. before x z ≡ true) ys
  All-before x y [] h k = tt
  All-before x y (z ∷ ys) h k = (before_trans x y z h k.0, All-before x y ys h k.1)

  -- The entry for the same key at the same time.
  unfoldable pub same : ⦃e : Eq K⦄ → Exp K → Exp K → Bool
  same x y = y.key == x.key && nat_beq y.at x.at

  pub before_total :
      ⦃e : Eq K⦄ (x y : Exp K) → before y x ≡ false → same x y ≡ false → before x y ≡ true
  unfolding before same
  before_total ⦃e⦄ x y h k = ground (arith, o.less_total x.key y.key, e.beq_iff y.key x.key)

  pub same-before : ⦃e : Eq K⦄ (x y : Exp K) → before x y ≡ true → same x y ≡ false
  unfolding before same
  same-before ⦃e⦄ x y h = ground (arith, e.beq_iff y.key x.key, o.less_irrefl x.key)

  pub same-after : ⦃e : Eq K⦄ (x y : Exp K) → before y x ≡ true → same x y ≡ false
  unfolding before same
  same-after ⦃e⦄ x y h = ground (arith, e.beq_iff y.key x.key, o.less_irrefl x.key)

  -- An entry before all of a list has its like nowhere in it.
  pub exists_in-same :
      ⦃e : Eq K⦄ (x : Exp K) (ys : List (Exp K))
      → All (λ z. before x z ≡ true) ys
      → exists_in (same x) ys ≡ false
  unfolding exists_in
  exists_in-same x [] h = ground arith
  exists_in-same x (y ∷ ys) h = ground (arith, same-before x y h.0, exists_in-same x ys h.1)
