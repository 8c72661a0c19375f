-- ===== src/Model/Definitions/Crd.antt =====
-- GetCustomResourceDefinition of internal/graph/model/common.go, and GetComposition of apiextensions.go.
use xgql.Prelude.{Option, List, [], Text, lit, text_eq, ◌==◌, if◌then◌else◌}
use xgql.Model.Meta.{RawCondition, Condition}
use xgql.Model.Composites.{Resource, proper_conditions}
use xgql.Model.Definitions.{
  RawNames, Names, RawCrdVersion, CrdVersion, TypeReference, get_custom_resource_definition_names,
  get_custom_resource_definition_versions,
}
use xgql.Unstructured.{Paved, Codec}
use xgql.Unstructured.Names.{name}
use xgql.Unstructured.Crd

pub data Scope : Type 0 where
  cluster_scoped namespace_scoped unscoped : Scope

-- GetResourceScope
unfoldable pub get_resource_scope : Text → Scope
get_resource_scope s =
    if s == lit "Cluster"
    then Scope.cluster_scoped
    else if s == lit "Namespaced"
    then Scope.namespace_scoped
    else Scope.unscoped

-- How the types of a CRD are decoded; of its status the conditions.
pub record CrdCodecs {V : Type 0} (null : V) (S : Type 0) : Type 0 where
  pub names : Codec null RawNames
  pub versions : Codec null (Option (List (RawCrdVersion S)))
  pub status : Codec null (Option (List RawCondition))

pub record CrdSpec : Type 0 where
  pub group : Text
  pub names : Names
  pub scope : Scope
  pub versions : Option (List CrdVersion)

-- GetCustomResourceDefinitionStatus with GetCustomResourceDefinitionConditions: its conditions.
unfoldable pub get_custom_resource_definition_status :
    Option (List RawCondition) → Option (List Condition)
unfolding proper_conditions
get_custom_resource_definition_status cs = proper_conditions cs

module _ {O V S M : Type 0} (p : Paved O V) (c : CrdCodecs p.null S) (marshal : S → Option Text)
    (meta : O → M) where
  unfoldable pub get_custom_resource_definition : O → Resource M CrdSpec (Option (List Condition))
  unfolding get_resource_scope get_custom_resource_definition_names
      get_custom_resource_definition_versions get_custom_resource_definition_status
  get_custom_resource_definition o =
      let spec : CrdSpec = record {
        group = Crd.get_spec_group p o;
        names = get_custom_resource_definition_names (Crd.get_spec_names p c.names o);
        scope = get_resource_scope (Crd.get_spec_scope p o);
        versions =
            get_custom_resource_definition_versions marshal (Crd.get_spec_versions p c.versions o);
      } in
      record {
        id = record {
          api_version = lit "apiextensions.k8s.io/v1";
          kind = lit "CustomResourceDefinition";
          namespace = [];
          name = name p o;
        };
        api_version = lit "apiextensions.k8s.io/v1";
        kind = lit "CustomResourceDefinition";
        metadata = meta o;
        spec = spec;
        status = get_custom_resource_definition_status (Crd.get_status p c.status o);
      }

-- A Composition of Crossplane.
pub record RawComposition : Type 0 where
  pub api_version : Text
  pub kind : Text
  pub name : Text
  pub composite_type_ref : TypeReference
  pub write_connection_secrets_to_namespace : Option Text

pub record CompositionSpec : Type 0 where
  pub composite_type_ref : TypeReference
  pub write_connection_secrets_to_namespace : Option Text

-- GetComposition
unfoldable pub get_composition :
    {M : Type 0} → (RawComposition → M) → RawComposition → Resource M CompositionSpec Unit
get_composition meta cmp = record {
  id = record { api_version = cmp.api_version; kind = cmp.kind; namespace = []; name = cmp.name };
  api_version = cmp.api_version;
  kind = cmp.kind;
  metadata = meta cmp;
  spec = record {
    composite_type_ref = cmp.composite_type_ref;
    write_connection_secrets_to_namespace = cmp.write_connection_secrets_to_namespace;
  };
  status = tt;
}
