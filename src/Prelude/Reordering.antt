-- ===== src/Prelude/Reordering.antt =====
-- Lists up to order: in which order goroutines end is not determined.
use mathlib.Core.Path.{◌≡◌, refl, ap, sym, ◌∙◌}
use mathlib.Core.Logic.{inl, inr}
use mathlib.Core.Bool.{true}
use mathlib.Core.List.{List, [], ◌∷◌, ◌++◌}
use native.Mathlib.Omega.{arith}
use xgql.Prelude.Tests.{Bool-cases}
use xgql.Prelude.Lists.{All}
use xgql.Prelude.Order.{Ord}
use xgql.Prelude.Sorting.{place, stable, by_key}

module _ {A : Type 0} where
  pub data Reorders : List A → List A → Type 0 where
    none_left : Reorders [] []
    keep : (x : A) {xs ys : List A} → Reorders xs ys → Reorders (x ∷ xs) (x ∷ ys)
    swap : (x y : A) (xs : List A) → Reorders (x ∷ y ∷ xs) (y ∷ x ∷ xs)
    both : {xs ys zs : List A} → Reorders xs ys → Reorders ys zs → Reorders xs zs

  pub All-Reorders : (P : A → Type 0) {xs ys : List A} → Reorders xs ys → All P xs → All P ys
  All-Reorders P none_left h = h
  All-Reorders P (keep x r) h = (h.0, All-Reorders P r h.1)
  All-Reorders P (swap x y xs) h = (h.1.0, (h.0, h.1.1))
  All-Reorders P (both r s) h = All-Reorders P s (All-Reorders P r h)

  same : (xs : List A) → Reorders xs xs
  same [] = none_left
  same (x ∷ xs) = keep x (same xs)

  behind : (x : A) (ys zs : List A) → Reorders (x ∷ (ys ++ zs)) (ys ++ (x ∷ zs))
  behind x [] zs = same (x ∷ zs)
  behind x (y ∷ ys) zs = both (swap x y (ys ++ zs)) (keep y (behind x ys zs))

  pub Reorders-append :
      (xs : List A) {ys zs : List A} → Reorders ys zs → Reorders (xs ++ ys) (xs ++ zs)
  Reorders-append [] r = r
  Reorders-append (x ∷ xs) r = keep x (Reorders-append xs r)

  -- Two lists at the front change places.
  pub blocks : (xs ys zs : List A) → Reorders (xs ++ (ys ++ zs)) (ys ++ (xs ++ zs))
  blocks [] ys zs = same (ys ++ zs)
  blocks (x ∷ xs) ys zs = both (keep x (blocks xs ys zs)) (behind x ys (xs ++ zs))

module _ {A K : Type 0} ⦃o : Ord K⦄ (key : A → K) where
  place-place :
      (x y : A) (xs : List A)
      → o.less (key x) (key y) ≡ true
      → place (by_key key) x (place (by_key key) y xs)
        ≡ place (by_key key) y (place (by_key key) x xs)
  unfolding place
  place-place x y [] h =
      ground (arith, h, o.less_trans (key x) (key y) (key x), o.less_irrefl (key x))
  place-place x y (z ∷ zs) h = ground (
    arith,
    h,
    place-place x y zs h,
    o.less_trans (key x) (key y) (key x),
    o.less_irrefl (key x),
    o.less_trans (key z) (key x) (key y),
  )

  -- Elements of different keys may be inserted in either order.
  place_comm :
      (x y : A) (xs : List A)
      → (key x ≡ key y → x ≡ y)
      → place (by_key key) x (place (by_key key) y xs)
        ≡ place (by_key key) y (place (by_key key) x xs)
  place_comm x y xs h = elim (Bool-cases (o.less (key x) (key y))) [
    | inl p ↦ place-place x y xs p
    | inr p ↦ elim (Bool-cases (o.less (key y) (key x))) [
      | inl q ↦ sym (place-place y x xs q)
      | inr q ↦ rw (h (o.less_total (key x) (key y) p q)) refl
    ]
  ]

  -- Sorting undoes a reordering, where elements of one key are one element.
  pub stable-Reorders :
      (P : A → Type 0) {xs ys : List A}
      → ((a b : A) → P a → P b → key a ≡ key b → a ≡ b)
      → All P xs
      → Reorders xs ys
      → stable (by_key key) xs ≡ stable (by_key key) ys
  unfolding stable
  stable-Reorders P one h none_left = refl
  stable-Reorders P one h (keep x r) = ap (place (by_key key) x) (stable-Reorders P one h.1 r)
  stable-Reorders P one h (swap x y xs) =
      place_comm x y (stable (by_key key) xs) (one x y h.0 h.1.0)
  stable-Reorders P one h (both r s) =
      stable-Reorders P one h r ∙ stable-Reorders P one (All-Reorders P r h) s
