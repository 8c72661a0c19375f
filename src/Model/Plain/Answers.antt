-- ===== src/Model/Plain/Answers.antt =====
-- The keys that a query asks of a modelled secret or config map: common.go of internal/graph/model.
use xgql.Prelude.{◌≡◌, refl, arith, ap, Option, none, some, List, [], ◌∷◌, Text, Dict, map}
use xgql.Model.Meta.{Data, select}
use xgql.Model.Composites.{SecretReference}
use xgql.Model.Definitions.Kept.{or_none, or_none-text_ptr}
use xgql.Model.Plain.{
  RawReference, ObjectReference, get_object_reference, get_secret_reference, RawData, copied, named,
  get_secret, get_config_map,
}

map-same : (m : Dict Text Text) → map (λ e. (e.0, e.1)) m ≡ m
map-same [] = refl
map-same (e ∷ m) = ap (λ r. e ∷ r) (map-same m)

copied_lem : (d : Data) → copied d ≡ d
unfolding copied
copied_lem none = refl
copied_lem (some m) = ap (λ r. some r) (map-same m)

-- A secret and a config map with the same content answer a query of their data alike.
select-get_secret :
    {M : Type 0} (meta : RawData → M) (o : RawData) (keys : Option (List Text))
    → select (get_secret meta o).spec.data_of keys ≡ select (get_config_map meta o).spec keys
unfolding get_secret get_config_map named
select-get_secret meta o keys = ap (λ d. select d keys) (copied_lem o.data_of)

-- A reference of the model back as one of Kubernetes, less its API version.
abbrev raw_reference : Option ObjectReference → Option RawReference
raw_reference none = none
raw_reference (some r) =
    some (record { kind = or_none r.kind; namespace = or_none r.namespace; name = or_none r.name })

-- A reference to an object and one to a secret are modelled without loss: an empty part is a null.
references-kept :
    (r : Option RawReference) (s : Option SecretReference)
    → (raw_reference (get_object_reference r) ≡ r) × (get_secret_reference s ≡ s)
unfolding get_object_reference get_secret_reference
references-kept r s = (object r, secret s)
  where
    object : (r : Option RawReference) → raw_reference (get_object_reference r) ≡ r
    object none = refl
    object (some r) =
        ground
          (arith, or_none-text_ptr r.kind, or_none-text_ptr r.namespace, or_none-text_ptr r.name)

    secret : (s : Option SecretReference) → get_secret_reference s ≡ s
    secret none = refl
    secret (some s) = refl
