-- ===== src/Cache/Set.antt =====
-- internal/cache/set.go: a set of comparable values. `Add` and `Remove` say whether they changed it.
use xgql.Prelude.{
  ◌≡◌, refl, Bool, true, false, ◌&&◌, ◌||◌, not, List, [], ◌∷◌, Eq, ◌==◌, arith, if◌then◌else◌,
}

module _ {T : Type 0} ⦃e : Eq T⦄ where
  unfoldable pub contains : List T → T → Bool
  contains [] v = false
  contains (x ∷ s) v = x == v || contains s v

  unfoldable pub add : List T → T → List T × Bool
  add s v = if contains s v then (s, false) else (v ∷ s, true)

  unfoldable pub without : List T → T → List T
  without [] v = []
  without (x ∷ s) v = let rest = without s v in if x == v then rest else x ∷ rest

  unfoldable pub remove : List T → T → List T × Bool
  remove s v = if contains s v then (without s v, true) else (s, false)

  contains-without :
      (s : List T) (v w : T) → contains (without s v) w ≡ (contains s w && not (v == w))
  unfolding contains without
  contains-without [] v w = ground arith
  contains-without (x ∷ s) v w =
      ground (arith, contains-without s v w, e.beq_iff x v, e.beq_iff x w, e.beq_iff v w)

  pub contains_eq : (s : List T) (v w : T) → (v == w) ≡ true → contains s v ≡ contains s w
  unfolding contains
  contains_eq [] v w h = refl
  contains_eq (x ∷ s) v w h =
      ground (arith, contains_eq s v w h, e.beq_iff x v, e.beq_iff x w, e.beq_iff v w)

  -- `Add` puts in the value and nothing else, and says whether it was not there.
  pub contains-add :
      (s : List T) (v w : T)
      → (contains (add s v).0 w ≡ (contains s w || v == w)) × ((add s v).1 ≡ not (contains s v))
  unfolding contains add
  contains-add s v w = ground (arith, contains_eq s v w)

  -- `Remove` takes out the value and nothing else, and says whether it was there.
  pub contains-remove :
      (s : List T) (v w : T)
      → (contains (remove s v).0 w ≡ (contains s w && not (v == w)))
        × ((remove s v).1 ≡ contains s v)
  unfolding remove
  contains-remove s v w = ground (arith, contains-without s v w, contains_eq s v w)
