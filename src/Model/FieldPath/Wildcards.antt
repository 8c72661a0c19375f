-- ===== src/Model/FieldPath/Wildcards.antt =====
-- What a path with a wildcard gives.
use xgql.Prelude.{
  ◌≡◌, refl, true, Option, none, some, List, [], ◌∷◌, map, Text, lit, inl, inr, Any, arith,
}
use xgql.Model.FieldPath.{
  Paved, Error, get_value_at, Outcome, ok, err, panics, contains, encoded, Values, read, missing,
  cons_value, values, of_values, of_paths, field_path_wildcard, field_path, field_path_of,
}

module _ {V : Type 0} (p : Paved V) where
  -- Of the values of some paths: each of them, in the order of the paths; or a path that has none.
  abbrev AreValues : List Text → Values V → Type 0
  AreValues qs (read vs) = map p.get_value qs ≡ map some vs
  AreValues qs (missing q) = (p.get_value q ≡ none) × Any (λ r. r ≡ q) qs

  cons_value-AreValues :
      (q : Text) (qs : List Text) (v : Option V) (vs : Values V)
      → p.get_value q ≡ v
      → AreValues qs vs
      → AreValues (q ∷ qs) (cons_value p q v vs)
  unfolding cons_value
  cons_value-AreValues q qs none vs e h = (e, inl refl)
  cons_value-AreValues q qs (some v) (read vs) e h = rw e (rw h refl)
  cons_value-AreValues q qs (some v) (missing r) e (m, h) = (m, inr h)

  values-AreValues : (qs : List Text) → AreValues qs (values p qs)
  unfolding values
  values-AreValues [] = refl
  values-AreValues (q ∷ qs) =
      cons_value-AreValues q qs (p.get_value q) (values p qs) refl (values-AreValues qs)

  -- Of an answer for the paths that a wildcard stands for: it encodes their values, one of them at least
  -- and all of them in their order; or one of them has no value, there are none, or the wildcard is not
  -- understood; or the values cannot be encoded.
  abbrev pub IsAnswer : Option (List Text) → Outcome → Type 0
  IsAnswer none r = r ≡ err Error.expand_wildcards
  IsAnswer (some []) r = r ≡ err Error.no_path
  IsAnswer (some (q ∷ qs)) (ok b) =
      (vs : List V) × (map p.get_value (q ∷ qs) ≡ map some vs) × (p.marshal_list vs ≡ some b)
  IsAnswer (some (q ∷ qs)) (err (get_value_at r)) =
      (p.get_value r ≡ none) × Any (λ s. s ≡ r) (q ∷ qs)
  IsAnswer (some (q ∷ qs)) (err e) = ⊥
  IsAnswer (some (q ∷ qs)) panics =
      (vs : List V) × (map p.get_value (q ∷ qs) ≡ map some vs) × (p.marshal_list vs ≡ none)

  encoded-IsAnswer :
      (q : Text) (qs : List Text) (vs : List V) (b : Option Text)
      → map p.get_value (q ∷ qs) ≡ map some vs
      → p.marshal_list vs ≡ b
      → IsAnswer (some (q ∷ qs)) (encoded b)
  unfolding encoded
  encoded-IsAnswer q qs vs none h e = (vs, h, e)
  encoded-IsAnswer q qs vs (some b) h e = (vs, h, e)

  of_values-IsAnswer :
      (q : Text) (qs : List Text) (vs : Values V)
      → AreValues (q ∷ qs) vs
      → IsAnswer (some (q ∷ qs)) (of_values p vs)
  unfolding of_values
  of_values-IsAnswer q qs (read vs) h = encoded-IsAnswer q qs vs (p.marshal_list vs) h refl
  of_values-IsAnswer q qs (missing r) h = h

  of_paths-IsAnswer : (qs : Option (List Text)) → IsAnswer qs (of_paths p qs)
  unfolding of_paths
  of_paths-IsAnswer none = refl
  of_paths-IsAnswer (some []) = refl
  of_paths-IsAnswer (some (q ∷ qs)) =
      of_values-IsAnswer q qs (values p (q ∷ qs)) (values-AreValues (q ∷ qs))

  -- `FieldPath` of a path with a wildcard: the values at the paths that it stands for, encoded as a list
  -- in their order, and an error if it stands for none, if one of them has no value, or if it is not
  -- understood. It panics only if the list of the values cannot be encoded.
  pub field_path_of-IsAnswer :
      (path : Text)
      → contains (lit "[*]") path ≡ true
      → IsAnswer (p.expand_wildcards path) (field_path_of p (some path))
  unfolding field_path_of field_path field_path_wildcard contains
  field_path_of-IsAnswer [] h = absurd (ground (arith, h))
  field_path_of-IsAnswer (c ∷ path) h = rw h (of_paths-IsAnswer (p.expand_wildcards (c ∷ path)))
