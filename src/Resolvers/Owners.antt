-- ===== src/Resolvers/Owners.antt =====
-- internal/graph/resolvers/objectmeta.go: the owners of an object, and its controller.
pub mod Controller
use xgql.Prelude.{Bool, true, false, not, Option, none, some, List, [], ◌∷◌, Text, if◌then◌else◌}
use xgql.Model.Id.{ReferenceId}
use xgql.Resolvers.Objects.{
  Error, Returned, Object, Resource, Got, found, not_found, failed, Server, model,
}
use xgql.Resolvers.Connections.{
  Connection, OwnerReference, is_set, connection, refuse, first, collect,
}

pub record Owner : Type 0 where
  pub controller : Option Bool
  pub resource : Resource

abbrev pub namespace_of : Option Text → Text
namespace_of none = []
namespace_of (some ns) = ns

-- Where the owner is read: in the namespace of the object.
unfoldable pub owner_id : Option Text → OwnerReference → ReferenceId
owner_id namespace ref = record {
  api_version = ref.api_version;
  kind = ref.kind;
  namespace = namespace_of namespace;
  name = ref.name;
}

module _ (srv : Server) where
  unfoldable pub modelled : Option Resource → Option Resource × List Error
  modelled none = (none, Error.model_owner ∷ [])
  modelled (some r) = (some r, [])

  unfoldable pub answer : Got Object → Option Resource × List Error
  unfolding modelled
  answer (found o) = modelled (model srv o)
  answer not_found = (none, Error.get_owner ∷ [])
  answer failed = (none, Error.get_owner ∷ [])

  -- The owner that a reference names.
  unfoldable pub read : Option Text → OwnerReference → Option Resource × List Error
  unfolding answer
  read namespace ref = answer (srv.get (owner_id namespace ref))

  unfoldable pub owner_of : OwnerReference → Option Resource × List Error → List Owner × List Error
  owner_of ref (none, es) = ([], es)
  owner_of ref (some r, es) = (record { controller = ref.controller; resource = r } ∷ [], es)

  unfoldable pub answered : Bool → List Owner × List Error → Returned (Connection Owner)
  answered false got = refuse Error.get_client
  answered true (nodes, es) = record { value = connection nodes; errors = es }

  -- Owners, of the references in the order in which their goroutines end.
  unfoldable pub owners : Option Text → List OwnerReference → Returned (Connection Owner)
  unfolding answered
  owners namespace refs =
      answered srv.client (collect (λ ref. owner_of ref (read namespace ref)) refs)

  unfoldable pub controlled : Option Text → Option OwnerReference → Returned (Option Resource)
  controlled namespace none = record { value = none; errors = [] }
  controlled namespace (some ref) =
      let (r, es) = read namespace ref in record { value = r; errors = es }

  unfoldable pub controller_at :
      Bool → Option Text → List OwnerReference → Returned (Option Resource)
  unfolding controlled
  controller_at false namespace refs = record { value = none; errors = Error.get_client ∷ [] }
  controller_at true namespace refs =
      controlled namespace (first (λ ref. is_set ref.controller) refs)

  -- Controller
  unfoldable pub controller : Option Text → List OwnerReference → Returned (Option Resource)
  unfolding controller_at
  controller namespace refs = controller_at srv.client namespace refs
