-- ===== src/Resolvers/Objects.antt =====
-- What the resolvers of internal/graph/resolvers read from the API server, through a client.
use xgql.Prelude.{Bool, Option, none, some, List, []}
use xgql.Model.Id.{ReferenceId}
use xgql.Model.Detect.{Unstructured, Kind, get_kubernetes_resource}

pub data Error : Type 0 where
  get_client get_resource model_resource list_resources : Error
  get_composed model_composed get_xr get_xrc get_composition get_secret get_config_map : Error
  list_xrds list_crds get_crd malformed_api_version model_defined : Error
  list_providers list_configs list_provider_revs list_config_revs : Error
  get_owner model_owner get_xrd get_comp : Error

-- What a resolver returns, and the errors that it adds to the response.
pub record Returned (A : Type 0) : Type 0 where
  pub value : A
  pub errors : List Error

-- An unstructured object: what the tests of its kind read, and the references of its spec.
pub record Object : Type 0 where
  pub id : ReferenceId
  pub shape : Unstructured
  pub resource_refs : List ReferenceId
  pub resource_ref : Option ReferenceId

-- A modelled resource, as far as other resolvers go on from it.
pub data Resource : Type 0 where
  composite : ReferenceId → List ReferenceId → Resource
  claim : ReferenceId → Option ReferenceId → Resource
  other : Kind → ReferenceId → Resource

unfoldable pub id_of : Resource → ReferenceId
id_of (composite id refs) = id
id_of (claim id ref) = id
id_of (other k id) = id

-- GetCompositeResource, whose id has no namespace.
unfoldable pub as_composite : Object → Resource
as_composite o = composite (record (o.id) { namespace = [] }) o.resource_refs

abbrev pub clustered : ReferenceId → ReferenceId
clustered id = record (id) { namespace = [] }

-- The ids of these types have a namespace: claims, secrets, config maps and generic resources.
unfoldable pub of_kind : Object → Kind → Resource
unfolding as_composite
of_kind o Kind.composite = as_composite o
of_kind o Kind.claim = claim o.id o.resource_ref
of_kind o Kind.secret = other Kind.secret o.id
of_kind o Kind.config_map = other Kind.config_map o.id
of_kind o Kind.generic = other Kind.generic o.id
of_kind o k = other k (clustered o.id)

-- How a read of one object ends.
pub data Got (A : Type 0) : Type 0 where
  found : A → Got A
  not_found failed : Got A

-- A client for some credentials, where there is one; `convert` is how conversions to a type end.
pub record Server : Type 0 where
  pub client : Bool
  pub get : ReferenceId → Got Object
  pub convert : Unstructured → Kind → Bool

module _ (srv : Server) where
  -- GetKubernetesResource
  unfoldable pub model : Object → Option Resource
  model o = elim (get_kubernetes_resource srv.convert o.shape) [
    | none ↦ none
    | some k ↦ some (of_kind o k)
  ]
