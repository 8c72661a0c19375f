-- ===== src/Resolvers/Connections/First.antt =====
-- The first of the items that passes a test.
use xgql.Prelude.{
  ◌≡◌, refl, Bool, true, false, ◌&&◌, ◌||◌, Option, none, some, List, [], ◌∷◌, exists_in,
  Bool-cases, inl, inr,
}
use xgql.Resolvers.Connections.{first}

or_same : (b c : Bool) → (b || c) ≡ (b || (b || c))
or_same true c = refl
or_same false c = refl

module _ {A : Type 0} where
  -- Of an answer: none, and no element passes; or one of the elements that pass, so that no test fails for
  -- all of these and does not fail for it.
  abbrev pub IsOneOf : (A → Bool) → List A → Option A → Type 0
  IsOneOf keep xs none = exists_in keep xs ≡ false
  IsOneOf keep xs (some a) =
      (keep a ≡ true)
      × ((p : A → Bool)
          → exists_in (λ x. keep x && p x) xs ≡ (p a || exists_in (λ x. keep x && p x) xs))

  IsOneOf-later :
      (keep : A → Bool) (x : A) (xs : List A) (r : Option A)
      → keep x ≡ false
      → IsOneOf keep xs r
      → IsOneOf keep (x ∷ xs) r
  unfolding exists_in
  IsOneOf-later keep x xs none q h = rw q h
  IsOneOf-later keep x xs (some a) q (k, h) = (k, λ p. rw q (h p))

  pub first-IsOneOf : (keep : A → Bool) (xs : List A) → IsOneOf keep xs (first keep xs)
  unfolding first exists_in
  first-IsOneOf keep [] = refl
  first-IsOneOf keep (x ∷ xs) = elim (Bool-cases (keep x)) [
    | inl q ↦ rw q (q, λ p. rw q (or_same (p x) _))
    | inr q ↦ rw q (IsOneOf-later keep x xs (first keep xs) q (first-IsOneOf keep xs))
  ]
