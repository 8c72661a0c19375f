-- ===== src/Resolvers/Mutation.antt =====
-- internal/graph/resolvers/mutation.go: resources are created, updated and deleted. `U` is an
-- unstructured resource, `V` a JSON value and `R` a modelled resource.
pub mod Identity
use xgql.Prelude.{
  ℕ, zero, suc, ◌+◌, Bool, true, false, Option, none, some, List, [], ◌∷◌, Text, ◌||◌,
  if◌then◌else◌,
}
use xgql.Model.Id.{ReferenceId}

pub data Error : Type 0 where
  get_client unmarshal_unstructured : Error
  unmarshal_patch patch : ℕ → Error
  create_resource update_resource delete_resource model_resource : Error

-- What the API server, with the retries, says of a call.
pub data Answer (U : Type 0) : Type 0 where
  accepted : U → Answer U
  not_found refused : Answer U

-- The tests of `IsRetriable` on an error of the API server.
pub record ApiError : Type 0 where
  pub is_timeout : Bool
  pub is_server_timeout : Bool
  pub is_internal_error : Bool
  pub is_too_many_requests : Bool
  pub is_unexpected_server_error : Bool
  pub is_unknown : Bool

-- IsRetriable
unfoldable pub is_retriable : ApiError → Bool
is_retriable e =
    e.is_timeout || e.is_server_timeout || e.is_internal_error || e.is_too_many_requests
    || e.is_unexpected_server_error || e.is_unknown

-- A patch of the input: its path, and its value where the JSON can be read.
pub record Patch (V : Type 0) : Type 0 where
  pub field_path : Text
  pub value : Option V

-- The payload of a mutation: its resource and its errors; `called` is what the API server was asked of.
pub record Payload (U R : Type 0) : Type 0 where
  pub called : Option U
  pub resource : Option R
  pub errors : List Error

-- What the resolver calls: fieldpath, the setters of an object, and GetKubernetesResource.
pub record Resources (U V R : Type 0) : Type 0 where
  pub empty : U
  pub set_value : Text → V → U → Option U
  pub set_api_version : Text → U → U
  pub set_kind : Text → U → U
  pub set_namespace : Text → U → U
  pub set_name : Text → U → U
  pub model : U → Option R

pub data Patched (U : Type 0) : Type 0 where
  ok : U → Patched U
  err : Error → Patched U

module _ {U V R : Type 0} (rs : Resources U V R) where
  -- The loop over the patches, from index `i`.
  unfoldable pub apply_patches : ℕ → List (Patch V) → U → Patched U
  apply_patches i [] u = ok u
  apply_patches i (p ∷ ps) u = elim p.value [
    | none ↦ err (Error.unmarshal_patch i)
    | some v ↦ elim (rs.set_value p.field_path v u) [
      | none ↦ err (Error.patch i)
      | some u' ↦ apply_patches (i + 1) ps u'
    ]
  ]

  unfoldable pub set_id : ReferenceId → U → U
  set_id id u =
      rs.set_name id.name
        (rs.set_namespace id.namespace (rs.set_kind id.kind (rs.set_api_version id.api_version u)))

  unfoldable pub modelled : U → Option R → Payload U R
  modelled u none = record { called = some u; resource = none; errors = Error.model_resource ∷ [] }
  modelled u (some r) = record { called = some u; resource = some r; errors = [] }

  -- From the call to the payload; a call changes the resource that it is given.
  unfoldable pub answered : Error → U → Answer U → Payload U R
  answered e u (accepted u') = modelled u (rs.model u')
  answered e u not_found = record { called = some u; resource = none; errors = e ∷ [] }
  answered e u refused = record { called = some u; resource = none; errors = e ∷ [] }

  abbrev failed : Error → Payload U R
  failed e = record { called = none; resource = none; errors = e ∷ [] }

  -- What follows the patches: the resource is prepared and sent, unless one of them failed.
  unfoldable pub submitted : Error → (U → U) → (U → Answer U) → Patched U → Payload U R
  submitted e prepare api (err f) = failed f
  submitted e prepare api (ok u) = answered e (prepare u) (api (prepare u))

  -- CreateKubernetesResource; `input` is the resource of the input where the JSON can be read.
  unfoldable pub create : Bool → (U → Answer U) → Option U → List (Patch V) → Payload U R
  create false api input ps = failed Error.get_client
  create true api none ps = failed Error.unmarshal_unstructured
  create true api (some u) ps =
      submitted Error.create_resource (λ u'. u') api (apply_patches 0 ps u)

  -- UpdateKubernetesResource
  unfoldable pub update :
      Bool → (U → Answer U) → ReferenceId → Option U → List (Patch V) → Payload U R
  update false api id input ps = failed Error.get_client
  update true api id none ps = failed Error.unmarshal_unstructured
  update true api id (some u) ps =
      submitted Error.update_resource (set_id id) api (apply_patches 0 ps u)

  -- `resource.IgnoreNotFound`: a resource that is not there is modelled as it was sent.
  unfoldable pub ignore_not_found : U → Answer U → Answer U
  ignore_not_found u not_found = accepted u
  ignore_not_found u a = a

  -- DeleteKubernetesResource
  unfoldable pub delete : Bool → (U → Answer U) → ReferenceId → Payload U R
  delete false api id = failed Error.get_client
  delete true api id =
      let u = set_id id rs.empty in answered Error.delete_resource u (ignore_not_found u (api u))
