-- ===== src/Model/FieldPath.antt =====
-- internal/graph/model/fieldpath.go: the JSON of an object, or of what stands at a path. The paved object and its
-- encoding are parameters.
pub mod Wildcards
use xgql.Prelude.{
  Bool, true, false, ◌||◌, Option, none, some, List, [], ◌∷◌, Text, lit, has_prefix, is_empty,
  if◌then◌else◌,
}

-- What crossplane-runtime's fieldpath and encoding/json do for one object: its encoding, its values, the
-- paths that a wildcard stands for, and the encodings of a value and of a list of values.
pub record Paved (V : Type 0) : Type 0 where
  pub whole : Option Text
  pub get_value : Text → Option V
  pub expand_wildcards : Text → Option (List Text)
  pub marshal : V → Option Text
  pub marshal_list : List V → Option Text

pub data Error : Type 0 where
  get_value expand_wildcards no_path : Error
  get_value_at : Text → Error

pub data Outcome : Type 0 where
  ok : Text → Outcome
  err : Error → Outcome
  panics : Outcome

-- strings.Contains
unfoldable pub contains : (p s : Text) → Bool
contains p [] = is_empty p
contains p (c ∷ s) = has_prefix p (c ∷ s) || contains p s

-- What is encoded; a failure to encode panics.
unfoldable pub encoded : Option Text → Outcome
encoded none = panics
encoded (some b) = ok b

-- The values of a list of paths, or the first path without one.
pub data Values (V : Type 0) : Type 0 where
  read : List V → Values V
  missing : Text → Values V

module _ {V : Type 0} (p : Paved V) where
  unfoldable pub cons_value : Text → Option V → Values V → Values V
  cons_value path none vs = missing path
  cons_value path (some v) (read vs) = read (v ∷ vs)
  cons_value path (some v) (missing q) = missing q

  unfoldable pub values : List Text → Values V
  unfolding cons_value
  values [] = read []
  values (q ∷ qs) = cons_value q (p.get_value q) (values qs)

  unfoldable pub of_values : Values V → Outcome
  unfolding encoded
  of_values (read vs) = encoded (p.marshal_list vs)
  of_values (missing q) = err (get_value_at q)

  unfoldable pub of_paths : Option (List Text) → Outcome
  unfolding values of_values
  of_paths none = err Error.expand_wildcards
  of_paths (some []) = err Error.no_path
  of_paths (some (q ∷ qs)) = of_values (values (q ∷ qs))

  -- fieldPathWildcard
  unfoldable pub field_path_wildcard : Text → Outcome
  unfolding of_paths
  field_path_wildcard path = of_paths (p.expand_wildcards path)

  unfoldable pub of_value : Option V → Outcome
  unfolding encoded
  of_value none = err Error.get_value
  of_value (some v) = encoded (p.marshal v)

  -- fieldPath
  unfoldable pub field_path : Text → Outcome
  unfolding of_value field_path_wildcard
  field_path path =
      if contains (lit "[*]") path then field_path_wildcard path else of_value (p.get_value path)

  -- Unstructured, with raw.
  unfoldable pub unstructured : Outcome
  unfolding encoded
  unstructured = encoded p.whole

  -- PavedAccess.FieldPath
  unfoldable pub field_path_of : Option Text → Outcome
  unfolding unstructured field_path
  field_path_of none = unstructured
  field_path_of (some path) = if is_empty path then unstructured else field_path path
