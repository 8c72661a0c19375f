-- ===== src/Resolvers/Queries.antt =====
-- The other queries of internal/graph/resolvers/query.go.
pub mod Selected
use xgql.Prelude.{
  ℕ, Bool, true, false, ◌&&◌, not, Option, none, some, List, [], ◌∷◌, ◌++◌, Text, lit, text_eq,
  ◌==◌, is_empty, text_ord, exists_in, stable, by_key, if◌then◌else◌,
}
use xgql.Model.Id.{ReferenceId}
use xgql.Resolvers.Objects.{Error, Returned, Object, Resource, id_of, Got, Server, model}
use xgql.Resolvers.Composed.{sort_key}
use xgql.Resolvers.Connections.{
  Connection, OwnerReference, is_set, connection, refuse, listed, required,
}
use xgql.Resolvers.Events.{ObjectReference, Event, Resolved, resolve}

-- A provider revision or a configuration revision.
pub record Revision : Type 0 where
  pub id : ReferenceId
  pub owners : List OwnerReference
  pub is_active : Bool

-- A composite resource definition, a composition or a custom resource definition.
pub record Owned : Type 0 where
  pub id : ReferenceId
  pub owners : List OwnerReference

abbrev pub revision_api_version : Text
revision_api_version = lit "pkg.crossplane.io/v1"

abbrev pub revision_kind : Text
revision_kind = lit "ConfigurationRevision"

unfoldable pub is_revision : OwnerReference → Bool
is_revision ref =
    if not (ref.api_version == revision_api_version) then false else ref.kind == revision_kind

-- containsCR
unfoldable pub contains_cr : List OwnerReference → Bool
unfolding is_revision
contains_cr refs = exists_in is_revision refs

unfoldable pub has_id : ReferenceId → OwnerReference → Bool
has_id id ref =
    if not (ref.api_version == id.api_version)
    then false
    else if not (ref.kind == id.kind)
    then false
    else ref.name == id.name

-- containsID
unfoldable pub contains_id : List OwnerReference → ReferenceId → Bool
unfolding has_id
contains_id refs id = exists_in (has_id id) refs

-- Whether the owners are as the query wants them, where it names one.
unfoldable pub is_owned_by : Option ReferenceId → List OwnerReference → Bool
is_owned_by none owners = true
is_owned_by (some id) owners = contains_id owners id

unfoldable pub keeps_revision : Option ReferenceId → Option Bool → Revision → Bool
unfolding is_owned_by
keeps_revision owner active r =
    if not (is_owned_by owner r.owners)
    then false
    else if is_set active && not r.is_active
    then false
    else true

unfoldable pub keeps_owned : Option ReferenceId → Option Bool → Owned → Bool
unfolding is_owned_by
keeps_owned revision dangling o =
    if is_set dangling && contains_cr o.owners
    then false
    else if not (is_owned_by revision o.owners)
    then false
    else true

-- The handlers: whether there is a client, and what it lists.
unfoldable pub provider_revisions :
    Bool
    → Option (List Revision)
    → Option ReferenceId
    → Option Bool
    → Returned (Connection Revision)
provider_revisions client items provider active =
    listed Revision.id Error.list_provider_revs (keeps_revision provider active) client items

unfoldable pub configuration_revisions :
    Bool
    → Option (List Revision)
    → Option ReferenceId
    → Option Bool
    → Returned (Connection Revision)
configuration_revisions client items configuration active =
    listed Revision.id Error.list_config_revs (keeps_revision configuration active) client items

unfoldable pub composite_resource_definitions :
    Bool → Option (List Owned) → Option ReferenceId → Option Bool → Returned (Connection Owned)
composite_resource_definitions client items revision dangling =
    listed Owned.id Error.list_configs (keeps_owned revision dangling) client items

unfoldable pub compositions :
    Bool → Option (List Owned) → Option ReferenceId → Option Bool → Returned (Connection Owned)
compositions client items revision dangling =
    listed Owned.id Error.list_configs (keeps_owned revision dangling) client items

unfoldable pub custom_resource_definitions :
    Bool → Option (List Owned) → Option ReferenceId → Returned (Connection Owned)
custom_resource_definitions client items revision =
    listed Owned.id Error.list_configs (λ o. is_owned_by revision o.owners) client items

unfoldable pub providers : Bool → Option (List ReferenceId) → Returned (Connection ReferenceId)
providers client items = listed (λ id. id) Error.list_providers (λ id. true) client items

unfoldable pub configurations : Bool → Option (List ReferenceId) → Returned (Connection ReferenceId)
configurations client items = listed (λ id. id) Error.list_configs (λ id. true) client items

module _ {A : Type 0} where
  unfoldable pub secret :
      Bool → (Text → Text → Got A) → (namespace name : Text) → Returned (Option A)
  secret client get namespace name = required Error.get_secret client (get namespace name)

  unfoldable pub config_map :
      Bool → (Text → Text → Got A) → (namespace name : Text) → Returned (Option A)
  config_map client get namespace name = required Error.get_config_map client (get namespace name)

-- Events
unfoldable pub events :
    (target upper_bound : ℕ) → Bool → Option (List Event) → Option ReferenceId → Resolved
events target upper_bound client items none = resolve target upper_bound client items none
events target upper_bound client items (some id) = resolve target upper_bound client items (
    some (record {
      api_version = id.api_version;
      kind = id.kind;
      namespace = id.namespace;
      name = id.name;
      uid = [];
    }))

-- The kind of list that is asked for.
unfoldable pub list_kind_of : Text → Option Text → Text
list_kind_of kind none = kind ++ lit "List"
list_kind_of kind (some k) = if is_empty k then kind ++ lit "List" else k

module _ (srv : Server) where
  unfoldable pub added : Option Resource → List Resource × List Error → List Resource × List Error
  added none (rs, es) = (rs, Error.model_resource ∷ es)
  added (some r) (rs, es) = (r ∷ rs, es)

  -- The items that can be modelled, and an error for each of the others.
  unfoldable pub model_all : List Object → List Resource × List Error
  unfolding added
  model_all [] = ([], [])
  model_all (o ∷ os) = added (model srv o) (model_all os)

  unfoldable pub modelled : Bool → Option (List Object) → Returned (Connection Resource)
  modelled false items = refuse Error.get_client
  modelled true none = refuse Error.list_resources
  modelled true (some items) =
      let (rs, es) = model_all items in
      record { value = connection (stable (by_key sort_key) rs); errors = es }

  -- KubernetesResources: `list` is what a list of an API version, a kind and maybe a namespace returns.
  unfoldable pub kubernetes_resources :
      (Text → Text → Option Text → Option (List Object))
      → (api_version kind : Text) → (list_kind namespace : Option Text)
      → Returned (Connection Resource)
  unfolding modelled
  kubernetes_resources list api_version kind list_kind namespace =
      modelled srv.client (list api_version (list_kind_of kind list_kind) namespace)
