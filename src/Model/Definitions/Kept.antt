-- ===== src/Model/Definitions/Kept.antt =====
-- What internal/graph/model keeps of a definition: apiextensions.go, and GetCustomResourceDefinition of
-- common.go.
use xgql.Prelude.{
  ◌≡◌, ◌∙◌, refl, ap, Bool, true, false, ◌&&◌, ◌||◌, not, Option, none, some, List, [], ◌∷◌, map,
  Text, text_eq, text_beq, get_elem?, ℕ, zero, suc, arith,
}
use xgql.Model.Meta.{RawCondition, get_conditions, text_ptr}
use xgql.Model.Definitions.{
  RawNames, Names, RawVersion, Version, schema_of, version_of,
  get_composite_resource_definition_versions, get_composite_resource_definition_names, is_zero,
  Controllers, get_controller_status, proper_definition_status,
  get_composite_resource_definition_status, RawXrd, get_composite_resource_definition,
}
use xgql.Model.Definitions.Crd.{CrdCodecs, get_custom_resource_definition}
use xgql.Unstructured.{
  Paved, Codec, Segments, apart, status, value_into, decoded, text_at, text_of, put,
}
use xgql.Unstructured.Names.{or_empty, name, name_at}
use xgql.Unstructured.Crd
use xgql.Unstructured.RoundTrips.{get-put-apart}

abbrev pub or_none : Option Text → Text
or_none none = []
or_none (some s) = s

pub or_none-text_ptr : (s : Text) → or_none (text_ptr s) ≡ s
unfolding text_ptr
or_none-text_ptr [] = refl
or_none-text_ptr (c ∷ s) = refl

-- A modelled name back as the name of Kubernetes.
abbrev pub raw_names : Names → RawNames
raw_names n = record {
  plural = n.plural;
  singular = or_none n.singular;
  short_names = n.short_names;
  kind = n.kind;
  list_kind = or_none n.list_kind;
  categories = n.categories;
}

abbrev pub raw_names_of : Option Names → Option RawNames
raw_names_of none = none
raw_names_of (some n) = some (raw_names n)

raw_names-get : (n : Option RawNames) → raw_names_of (get_composite_resource_definition_names n) ≡ n
unfolding get_composite_resource_definition_names
raw_names-get none = refl
raw_names-get (some n) = ground (arith, or_none-text_ptr n.singular, or_none-text_ptr n.list_kind)

abbrev pub items {ℓ} : {A : Type ℓ} → Option (List A) → List A
items none = []
items (some xs) = xs

abbrev pub mapped {ℓ κ} : {A : Type ℓ} {B : Type κ} → (A → B) → Option A → Option B
mapped f none = none
mapped f (some a) = some (f a)

get_elem?-map :
    {A B : Type 0} (f : A → B) (xs : List A) (i : ℕ)
    → get_elem? (map f xs) i ≡ mapped f (get_elem? xs i)
get_elem?-map f [] i = refl
get_elem?-map f (x ∷ xs) zero = refl
get_elem?-map f (x ∷ xs) (suc i) = get_elem?-map f xs i

versions-get :
    {S : Type 0} (marshal : S → Option Text) (vs : Option (List (RawVersion S))) (i : ℕ)
    → get_elem? (items (get_composite_resource_definition_versions marshal vs)) i
      ≡ mapped (version_of marshal) (get_elem? (items vs) i)
unfolding get_composite_resource_definition_versions
versions-get marshal none i = refl
versions-get marshal (some vs) i = get_elem?-map (version_of marshal) vs i

-- A schema as JSON, where there is one that can be marshalled.
abbrev pub marshalled : {S : Type 0} → (S → Option Text) → Option S → Option Text
marshalled marshal none = none
marshalled marshal (some s) = marshal s

schema_of_lem :
    {S : Type 0} (marshal : S → Option Text) (s : Option S)
    → schema_of marshal s ≡ marshalled marshal s
unfolding schema_of
schema_of_lem marshal none = refl
schema_of_lem marshal (some s) = refl

mapped-mapped :
    {A B C : Type 0} (f : B → C) (g : A → B) (h : A → C) (m : Option A)
    → ((a : A) → f (g a) ≡ h a)
    → mapped f (mapped g m) ≡ mapped h m
mapped-mapped f g h none e = refl
mapped-mapped f g h (some a) e = ap some (e a)

-- A field of a version that stands in the model where it stood.
versions-field :
    {S B : Type 0} (marshal : S → Option Text) (vs : Option (List (RawVersion S))) (i : ℕ)
    (f : Version → B) (g : RawVersion S → B)
    → ((v : RawVersion S) → f (version_of marshal v) ≡ g v)
    → mapped f (get_elem? (items (get_composite_resource_definition_versions marshal vs)) i)
      ≡ mapped g (get_elem? (items vs) i)
versions-field marshal vs i f g e =
    ap (mapped f) (versions-get marshal vs i)
    ∙ mapped-mapped f (version_of marshal) g (get_elem? (items vs) i) e

abbrev pub has {ℓ} : {A : Type ℓ} → Option A → Bool
has none = false
has (some a) = true

has-status :
    (cs : Option (List RawCondition)) (c : Controllers)
    → has (get_composite_resource_definition_status cs c) ≡ (
        has cs
        || not (is_zero c.composite_resource_type && is_zero c.composite_resource_claim_type))
unfolding get_composite_resource_definition_status get_conditions get_controller_status
    proper_definition_status
has-status none c = ground arith
has-status (some cs) c = refl

-- An XRD keeps its names and those of its claims, an empty singular or list kind being none, and its
-- versions in their order, each with its name, whether it is served and may be referred to, and its
-- schema as JSON, if that can be marshalled; its status is
-- missing just when there is no list of conditions and no type of its controllers. But the keys of its
-- connection secret are missing, whatever they are.
pub get_composite_resource_definition_lem :
    {S C M : Type 0} (marshal : S → Option Text) (meta : RawXrd S C → M) (xrd : RawXrd S C) (i : ℕ)
    → let out = get_composite_resource_definition marshal meta xrd in
      (raw_names_of out.spec.names ≡ some xrd.names)
      × (raw_names_of out.spec.claim_names ≡ xrd.claim_names)
      × (mapped Version.name (get_elem? (items out.spec.versions) i)
          ≡ mapped RawVersion.name (get_elem? (items xrd.versions) i))
      × (mapped Version.served (get_elem? (items out.spec.versions) i)
          ≡ mapped RawVersion.served (get_elem? (items xrd.versions) i))
      × (mapped Version.referenceable (get_elem? (items out.spec.versions) i)
          ≡ mapped RawVersion.referenceable (get_elem? (items xrd.versions) i))
      × (mapped Version.schema (get_elem? (items out.spec.versions) i)
          ≡ mapped (λ v. marshalled marshal v.schema) (get_elem? (items xrd.versions) i))
      × (has out.status ≡ (
          has xrd.conditions
          || not (
              is_zero xrd.controllers.composite_resource_type
              && is_zero xrd.controllers.composite_resource_claim_type)))
      × (out.spec.connection_secret_keys ≡ none)
unfolding get_composite_resource_definition version_of
get_composite_resource_definition_lem marshal meta xrd i = (
  raw_names-get (some xrd.names),
  raw_names-get xrd.claim_names,
  versions-field marshal xrd.versions i Version.name RawVersion.name (λ v. refl),
  versions-field marshal xrd.versions i Version.served RawVersion.served (λ v. refl),
  versions-field marshal xrd.versions i Version.referenceable RawVersion.referenceable (λ v. refl),
  versions-field marshal xrd.versions i Version.schema (λ v. marshalled marshal v.schema)
      (λ v. schema_of_lem marshal v.schema),
  has-status xrd.conditions xrd.controllers,
  refl,
)

-- No getter of a definition, and not its name, sees the status.
module _ {O V : Type 0} (p : Paved O V) (v : V) (o : O) where
  text-put_status :
      (q : Segments)
      → apart status q ≡ true
      → or_empty (text_at p q (put p status v o)) ≡ or_empty (text_at p q o)
  unfolding text_at
  text-put_status q a = ap (λ m. or_empty (text_of p m)) (get-put-apart p status q v o a)

  value-put_status :
      {T : Type 0} (d : Codec p.null T) (q : Segments)
      → apart status q ≡ true
      → Crd.read_or_zero p d (value_into p d q (put p status v o))
        ≡ Crd.read_or_zero p d (value_into p d q o)
  unfolding value_into
  value-put_status d q a =
      ap (λ m. Crd.read_or_zero p d (decoded p d m)) (get-put-apart p status q v o a)

  texts-put_status :
      (name p (put p status v o) ≡ name p o)
      × (Crd.get_spec_group p (put p status v o) ≡ Crd.get_spec_group p o)
      × (Crd.get_spec_scope p (put p status v o) ≡ Crd.get_spec_scope p o)
  unfolding apart text_beq name name_at Crd.get_spec_group Crd.get_spec_scope
  texts-put_status = (text-put_status _ refl, text-put_status _ refl, text-put_status _ refl)

  values-put_status :
      {S : Type 0} (c : CrdCodecs p.null S)
      → (Crd.get_spec_names p c.names (put p status v o) ≡ Crd.get_spec_names p c.names o)
        × (Crd.get_spec_versions p c.versions (put p status v o)
            ≡ Crd.get_spec_versions p c.versions o)
        × (Crd.get_status p c.status (put p status v o) ≡ Crd.get_status p c.status o)
  unfolding apart text_beq Crd.get_spec_names Crd.get_spec_versions Crd.get_status
  values-put_status c = (
    value-put_status c.names _ refl,
    value-put_status c.versions _ refl,
    value-put_status c.status _ refl,
  )

-- Whatever is written to the status of a custom resource definition, its model stays the same, but for
-- its metadata: the conditions of the definition are never shown.
pub get_custom_resource_definition-put_status :
    {O V S M : Type 0} (p : Paved O V) (c : CrdCodecs p.null S) (marshal : S → Option Text)
    (meta : O → M) (v : V) (o : O)
    → let before = get_custom_resource_definition p c marshal meta o in
      let after = get_custom_resource_definition p c marshal meta (put p status v o) in
      (after.id ≡ before.id) × (after.spec ≡ before.spec) × (after.status ≡ before.status)
unfolding get_custom_resource_definition
get_custom_resource_definition-put_status p c marshal meta v o =
    let texts = texts-put_status p v o in
    let values = values-put_status p v o c in
    (ground (arith, texts.0), ground (arith, texts, values), ground (arith, values.2))
