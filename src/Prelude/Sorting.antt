-- ===== src/Prelude/Sorting.antt =====
-- Filters, and Go's `sort.Stable` as an insertion sort: `before` is `Less`.
use mathlib.Core.Path.{◌≡◌, refl, ap, ◌∙◌}
use mathlib.Core.Logic.{inl, inr}
use mathlib.Core.Bool.{Bool, true, false, ◌||◌, ◌&&◌}
use mathlib.Core.List.{List, [], ◌∷◌}
use native.Mathlib.Omega.{arith}
use xgql.Prelude.Tests.{if◌then◌else◌, Bool-cases}
use xgql.Prelude.Lists.{exists_in, All, length}
use xgql.Prelude.Order.{Ord}

module _ {A : Type 0} where
  -- The elements that pass the test, in their order.
  unfoldable pub filter : (A → Bool) → List A → List A
  filter p [] = []
  filter p (x ∷ xs) = let rest = filter p xs in if p x then x ∷ rest else rest

  -- Insertion before the first element that is not strictly smaller.
  unfoldable pub place : (A → A → Bool) → A → List A → List A
  place before x [] = x ∷ []
  place before x (y ∷ ys) =
      let rest = place before x ys in if before y x then y ∷ rest else x ∷ y ∷ ys

  unfoldable pub stable : (A → A → Bool) → List A → List A
  stable before [] = []
  stable before (x ∷ xs) = place before x (stable before xs)

  -- Nothing stands behind an element that it should stand before.
  abbrev pub IsOrdered : (A → A → Bool) → List A → Type 0
  IsOrdered before [] = Unit
  IsOrdered before (x ∷ xs) = All (λ y. before y x ≡ false) xs × IsOrdered before xs

  -- What `sort` asks of `Less`: neither of two elements before itself by way of the other, and not being
  -- smaller is transitive.
  pub record IsLess (before : A → A → Bool) : Type 0 where
    pub asym : (a b : A) → before a b ≡ true → before b a ≡ false
    pub not_trans : (a b c : A) → before a b ≡ false → before b c ≡ false → before a c ≡ false

  All-place :
      (P : A → Type 0) (before : A → A → Bool) (x : A) (xs : List A)
      → P x
      → All P xs
      → All P (place before x xs)
  unfolding place
  All-place P before x [] h k = (h, k)
  All-place P before x (y ∷ ys) h k = elim (Bool-cases (before y x)) [
    | inl p ↦ rw p (k.0, All-place P before x ys h k.1)
    | inr p ↦ rw p (h, k)
  ]

  pub All-stable :
      (P : A → Type 0) (before : A → A → Bool) (xs : List A) → All P xs → All P (stable before xs)
  unfolding stable
  All-stable P before [] h = h
  All-stable P before (x ∷ xs) h =
      All-place P before x (stable before xs) h.0 (All-stable P before xs h.1)

  behind :
      (before : A → A → Bool) (x y : A) (ys : List A)
      → IsLess before
      → before y x ≡ false
      → All (λ z. before z y ≡ false) ys
      → All (λ z. before z x ≡ false) ys
  behind before x y [] w p h = h
  behind before x y (z ∷ zs) w p h = (w.not_trans z y x h.0 p, behind before x y zs w p h.1)

  place-IsOrdered :
      (before : A → A → Bool) (x : A) (xs : List A)
      → IsLess before
      → IsOrdered before xs
      → IsOrdered before (place before x xs)
  unfolding place
  place-IsOrdered before x [] w h = (tt, tt)
  place-IsOrdered before x (y ∷ ys) w h = elim (Bool-cases (before y x)) [
    | inl p ↦ rw p (
      All-place (λ z. before z y ≡ false) before x ys (w.asym y x p) h.0,
      place-IsOrdered before x ys w h.1,
    )
    | inr p ↦ rw p ((p, behind before x y ys w p h.0), h)
  ]

  pub stable-IsOrdered :
      (before : A → A → Bool) (xs : List A) → IsLess before → IsOrdered before (stable before xs)
  unfolding stable
  stable-IsOrdered before [] w = tt
  stable-IsOrdered before (x ∷ xs) w =
      place-IsOrdered before x (stable before xs) w (stable-IsOrdered before xs w)

  exists_in-place :
      (p : A → Bool) (before : A → A → Bool) (x : A) (xs : List A)
      → exists_in p (place before x xs) ≡ (p x || exists_in p xs)
  unfolding place exists_in
  exists_in-place p before x [] = refl
  exists_in-place p before x (y ∷ ys) = ground (arith, exists_in-place p before x ys)

  pub exists_in-stable :
      (p : A → Bool) (before : A → A → Bool) (xs : List A)
      → exists_in p (stable before xs) ≡ exists_in p xs
  unfolding stable exists_in
  exists_in-stable p before [] = refl
  exists_in-stable p before (x ∷ xs) =
      ground (arith, exists_in-place p before x (stable before xs), exists_in-stable p before xs)

  pub exists_in-filter :
      (p q : A → Bool) (xs : List A) → exists_in p (filter q xs) ≡ exists_in (λ x. q x && p x) xs
  unfolding filter exists_in
  exists_in-filter p q [] = refl
  exists_in-filter p q (x ∷ xs) = ground (arith, exists_in-filter p q xs)

  length-place :
      (before : A → A → Bool) (x : A) (xs : List A) → length (place before x xs) ≡ length (x ∷ xs)
  unfolding place
  length-place before x [] = refl
  length-place before x (y ∷ ys) = ground (arith, length-place before x ys)

  pub length-stable : (before : A → A → Bool) (xs : List A) → length (stable before xs) ≡ length xs
  unfolding stable
  length-stable before [] = refl
  length-stable before (x ∷ xs) =
      ground (arith, length-place before x (stable before xs), length-stable before xs)

  -- Elements that pass a test and are not told apart by the order keep their places.
  filter-place :
      (p : A → Bool) (before : A → A → Bool) (x : A) (xs : List A)
      → ((a b : A) → p a ≡ true → p b ≡ true → before a b ≡ false)
      → filter p (place before x xs) ≡ filter p (x ∷ xs)
  unfolding filter place
  filter-place p before x [] h = refl
  filter-place p before x (y ∷ ys) h = ground (arith, filter-place p before x ys h, h y x)

  pub filter-stable :
      (p : A → Bool) (before : A → A → Bool) (xs : List A)
      → ((a b : A) → p a ≡ true → p b ≡ true → before a b ≡ false)
      → filter p (stable before xs) ≡ filter p xs
  unfolding filter stable
  filter-stable p before [] h = refl
  filter-stable p before (x ∷ xs) h =
      filter-place p before x (stable before xs) h
      ∙ unfold filter in ap (λ l. if p x then x ∷ l else l) (filter-stable p before xs h)

-- An order by a key.
module _ {A K : Type 0} ⦃o : Ord K⦄ (key : A → K) where
  abbrev pub by_key : A → A → Bool
  by_key a b = o.less (key a) (key b)

  pub by_key-IsLess : IsLess by_key
  by_key-IsLess = record { asym = asym; not_trans = not_trans }
    where
      asym : (a b : A) → by_key a b ≡ true → by_key b a ≡ false
      asym a b h = elim (Bool-cases (by_key b a)) [
        | inr p ↦ p
        | inl p ↦ absurd (cc (o.less_trans (key a) (key b) (key a) h p, o.less_irrefl (key a)))
      ]

      not_trans : (a b c : A) → by_key a b ≡ false → by_key b c ≡ false → by_key a c ≡ false
      not_trans a b c h k = elim (Bool-cases (by_key a c)) [
        | inr p ↦ p
        | inl p ↦ elim (Bool-cases (by_key b a)) [
          | inl q ↦ absurd (cc (o.less_trans (key b) (key a) (key c) q p))
          | inr q ↦ absurd (cc (o.less_total (key a) (key b) h q))
        ]
      ]
