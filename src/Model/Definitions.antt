-- ===== src/Model/Definitions.antt =====
-- Definitions and compositions as internal/graph/model models them: apiextensions.go, and
-- GetCustomResourceDefinition of common.go with what it calls. `marshal` is json.Marshal of a schema,
-- `none` for an error; `meta` is GetObjectMeta.
pub mod Crd
pub mod Kept
use xgql.Prelude.{
  ◌≡◌, Bool, true, false, ◌&&◌, Option, none, some, List, [], ◌∷◌, map, Text, lit, text_eq, ◌==◌,
  is_empty, if◌then◌else◌,
}
use xgql.Model.Id.{ReferenceId}
use xgql.Model.Meta.{RawCondition, Condition, text_ptr, get_conditions}
use xgql.Model.Composites.{Resource}
use xgql.Unstructured.{Paved, Codec}
use xgql.Unstructured.Names.{name}

-- CustomResourceDefinitionNames of Kubernetes, and of the models.
pub record RawNames : Type 0 where
  pub plural : Text
  pub singular : Text
  pub short_names : List Text
  pub kind : Text
  pub list_kind : Text
  pub categories : List Text

pub record Names : Type 0 where
  pub plural : Text
  pub singular : Option Text
  pub short_names : List Text
  pub kind : Text
  pub list_kind : Option Text
  pub categories : List Text

-- GetCustomResourceDefinitionNames
unfoldable pub get_custom_resource_definition_names : RawNames → Names
unfolding text_ptr
get_custom_resource_definition_names n = record {
  plural = n.plural;
  singular = text_ptr n.singular;
  short_names = n.short_names;
  kind = n.kind;
  list_kind = text_ptr n.list_kind;
  categories = n.categories;
}

-- GetCompositeResourceDefinitionNames, of a pointer.
unfoldable pub get_composite_resource_definition_names : Option RawNames → Option Names
unfolding text_ptr
get_composite_resource_definition_names none = none
get_composite_resource_definition_names (some n) = some (record {
  plural = n.plural;
  singular = text_ptr n.singular;
  short_names = n.short_names;
  kind = n.kind;
  list_kind = text_ptr n.list_kind;
  categories = n.categories;
})

-- A version of an XRD; `S` is a schema.
pub record RawVersion (S : Type 0) : Type 0 where
  pub name : Text
  pub served : Bool
  pub referenceable : Bool
  pub schema : Option S

pub record Version : Type 0 where
  pub name : Text
  pub served : Bool
  pub referenceable : Bool
  pub schema : Option Text

-- A version of a CRD, whose schema may be nil inside.
pub record RawCrdVersion (S : Type 0) : Type 0 where
  pub name : Text
  pub served : Bool
  pub schema : Option (Option S)

pub record CrdVersion : Type 0 where
  pub name : Text
  pub served : Bool
  pub schema : Option Text

module _ {S : Type 0} (marshal : S → Option Text) where
  unfoldable pub schema_of : Option S → Option Text
  schema_of none = none
  schema_of (some s) = marshal s

  unfoldable pub version_of : RawVersion S → Version
  unfolding schema_of
  version_of v = record {
    name = v.name;
    served = v.served;
    referenceable = v.referenceable;
    schema = schema_of v.schema;
  }

  -- GetCompositeResourceDefinitionVersions
  unfoldable pub get_composite_resource_definition_versions :
      Option (List (RawVersion S)) → Option (List Version)
  unfolding version_of
  get_composite_resource_definition_versions none = none
  get_composite_resource_definition_versions (some vs) = some (map version_of vs)

  unfoldable pub crd_schema_of : Option (Option S) → Option Text
  unfolding schema_of
  crd_schema_of none = none
  crd_schema_of (some s) = schema_of s

  unfoldable pub crd_version_of : RawCrdVersion S → CrdVersion
  unfolding crd_schema_of
  crd_version_of v = record { name = v.name; served = v.served; schema = crd_schema_of v.schema }

  -- GetCustomResourceDefinitionVersions
  unfoldable pub get_custom_resource_definition_versions :
      Option (List (RawCrdVersion S)) → Option (List CrdVersion)
  unfolding crd_version_of
  get_custom_resource_definition_versions none = none
  get_custom_resource_definition_versions (some vs) = some (map crd_version_of vs)

pub record TypeReference : Type 0 where
  pub api_version : Text
  pub kind : Text

unfoldable pub is_zero : TypeReference → Bool
is_zero r = is_empty r.api_version && is_empty r.kind

-- The status of the controllers of an XRD: the types of its composite resources and of its claims.
pub record Controllers : Type 0 where
  pub composite_resource_type : TypeReference
  pub composite_resource_claim_type : TypeReference

-- GetCompositeResourceDefinitionControllerStatus
unfoldable pub get_controller_status : Controllers → Option Controllers
unfolding is_zero
get_controller_status c =
    if is_zero c.composite_resource_type && is_zero c.composite_resource_claim_type
    then none
    else some c

pub record DefinitionStatus : Type 0 where
  pub conditions : Option (List Condition)
  pub controllers : Option Controllers

unfoldable pub proper_definition_status : DefinitionStatus → Option DefinitionStatus
proper_definition_status st = elim st.conditions [
  | none ↦ elim st.controllers [ none ↦ none | some c ↦ some st ]
  | some cs ↦ some st
]

-- GetCompositeResourceDefinitionStatus
unfoldable pub get_composite_resource_definition_status :
    Option (List RawCondition) → Controllers → Option DefinitionStatus
unfolding proper_definition_status get_controller_status get_conditions
get_composite_resource_definition_status cs c =
    proper_definition_status
      (record { conditions = get_conditions cs; controllers = get_controller_status c })

-- A CompositeResourceDefinition of Crossplane; `C` is a reference to a composition.
pub record RawXrd (S C : Type 0) : Type 0 where
  pub api_version : Text
  pub kind : Text
  pub name : Text
  pub group : Text
  pub names : RawNames
  pub claim_names : Option RawNames
  pub connection_secret_keys : List Text
  pub versions : Option (List (RawVersion S))
  pub default_composition_ref : Option C
  pub enforced_composition_ref : Option C
  pub conditions : Option (List RawCondition)
  pub controllers : Controllers

pub record XrdSpec (C : Type 0) : Type 0 where
  pub group : Text
  pub names : Option Names  -- dereferenced in the source
  pub claim_names : Option Names
  pub connection_secret_keys : Option (List Text)
  pub versions : Option (List Version)
  pub default_composition_reference : Option C
  pub enforced_composition_reference : Option C

-- GetCompositeResourceDefinition; the keys of the connection secret are not assigned.
unfoldable pub get_composite_resource_definition :
    {S C M : Type 0}
    → (S → Option Text)
    → (RawXrd S C → M)
    → RawXrd S C
    → Resource M (XrdSpec C) (Option DefinitionStatus)
unfolding get_composite_resource_definition_names get_composite_resource_definition_versions
    get_composite_resource_definition_status
get_composite_resource_definition {C = C} marshal meta xrd =
    let spec : XrdSpec C = record {
      group = xrd.group;
      names = get_composite_resource_definition_names (some xrd.names);
      claim_names = get_composite_resource_definition_names xrd.claim_names;
      connection_secret_keys = none;
      versions = get_composite_resource_definition_versions marshal xrd.versions;
      default_composition_reference = xrd.default_composition_ref;
      enforced_composition_reference = xrd.enforced_composition_ref;
    } in
    record {
      id = record {
        api_version = xrd.api_version;
        kind = xrd.kind;
        namespace = [];
        name = xrd.name;
      };
      api_version = xrd.api_version;
      kind = xrd.kind;
      metadata = meta xrd;
      spec = spec;
      status = get_composite_resource_definition_status xrd.conditions xrd.controllers;
    }
