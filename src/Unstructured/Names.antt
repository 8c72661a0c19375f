-- ===== src/Unstructured/Names.antt =====
-- GetAPIVersion, GetKind, GetNamespace and GetName of package unstructured, and what a write below the
-- specification leaves of them.
use xgql.Prelude.{◌≡◌, refl, ap, true, Option, none, some, [], ◌∷◌, Text, lit, text_eq, text_beq}
use xgql.Unstructured.{Paved, Segments, apart, spec, text_of, text_at, put}
use xgql.Unstructured.RoundTrips.{get-put-apart}

unfoldable pub or_empty : Option Text → Text
or_empty none = []
or_empty (some s) = s

module _ {O V : Type 0} (p : Paved O V) where
  unfoldable pub name_at : Segments → O → Text
  unfolding or_empty text_at
  name_at q o = or_empty (text_at p q o)

  unfoldable pub api_version : O → Text
  unfolding name_at
  api_version o = name_at (lit "apiVersion" ∷ []) o

  unfoldable pub kind : O → Text
  unfolding name_at
  kind o = name_at (lit "kind" ∷ []) o

  unfoldable pub namespace : O → Text
  unfolding name_at
  namespace o = name_at (lit "metadata" ∷ lit "namespace" ∷ []) o

  unfoldable pub name : O → Text
  unfolding name_at
  name o = name_at (lit "metadata" ∷ lit "name" ∷ []) o

  name_at-put :
      (q r : Segments) (v : V) (o : O) → apart q r ≡ true → name_at r (put p q v o) ≡ name_at r o
  unfolding name_at text_at
  name_at-put q r v o a = ap (λ m. or_empty (text_of p m)) (get-put-apart p q r v o a)

  -- No setter of a specification's field renames the object.
  pub names-put :
      (field : Text) (v : V) (o : O)
      → let o' = put p (spec field) v o in
        (api_version o' ≡ api_version o)
        × (kind o' ≡ kind o)
        × (namespace o' ≡ namespace o)
        × (name o' ≡ name o)
  unfolding api_version kind namespace name apart text_beq
  names-put field v o =
      let same : (r : Segments)
          → apart (spec field) r ≡ true
          → name_at r (put p (spec field) v o) ≡ name_at r o =
        λ r a. name_at-put (spec field) r v o a in
      (same _ refl, same _ refl, same _ refl, same _ refl)
