-- ===== src/Resolvers/Packages.antt =====
-- internal/graph/resolvers/configuration.go and provider.go: the revisions of a package, and the objects that
-- a revision installed. What metav1.GetControllerOf returns is a parameter.
pub mod Active
use xgql.Prelude.{
  Bool, true, false, not, Option, none, some, List, [], ◌∷◌, Text, lit, text_eq, ◌==◌, split_on,
  if◌then◌else◌,
}
use xgql.Model.Id.{ReferenceId}
use xgql.Resolvers.Objects.{Error, Returned, Got, found, not_found, failed}
use xgql.Resolvers.Connections.{
  Connection, OwnerReference, connection, refuse, listed, listed_first, collect,
}
use xgql.Resolvers.Queries.{Revision}

-- Whether a controller is the one with a UID.
unfoldable pub is_uid : Text → Option OwnerReference → Bool
is_uid uid none = false
is_uid uid (some c) = c.uid == uid

module _ (controller_of : List OwnerReference → Option OwnerReference) where
  unfoldable pub is_ours : Text → Revision → Bool
  unfolding is_uid
  is_ours uid r = is_uid uid (controller_of r.owners)

  unfoldable pub is_active_ours : Text → Revision → Bool
  unfolding is_ours
  is_active_ours uid r = if not r.is_active then false else is_ours uid r

  -- Configuration.Revisions and Provider.Revisions, which differ in the error.
  unfoldable pub configuration_revisions :
      Bool → Option (List Revision) → Text → Returned (Connection Revision)
  configuration_revisions client items uid =
      listed Revision.id Error.list_config_revs (is_ours uid) client items

  unfoldable pub provider_revisions :
      Bool → Option (List Revision) → Text → Returned (Connection Revision)
  provider_revisions client items uid =
      listed Revision.id Error.list_provider_revs (is_ours uid) client items

  -- Configuration.ActiveRevision and Provider.ActiveRevision
  unfoldable pub configuration_active :
      Bool → Option (List Revision) → Text → Returned (Option Revision)
  configuration_active client items uid =
      listed_first Error.list_config_revs (is_active_ours uid) client items

  unfoldable pub provider_active : Bool → Option (List Revision) → Text → Returned (Option Revision)
  provider_active client items uid =
      listed_first Error.list_provider_revs (is_active_ours uid) client items

-- A reference to an installed object.
pub record ObjectRef : Type 0 where
  pub api_version : Text
  pub kind : Text
  pub name : Text

-- What stands before the first slash.
unfoldable pub group_of : List Text → Text
group_of [] = []
group_of (g ∷ rest) = g

module _ {A : Type 0} where
  -- What a goroutine adds for an object that has to be there.
  unfoldable pub added : Error → Got A → List A × List Error
  added e (found a) = (a ∷ [], [])
  added e not_found = ([], e ∷ [])
  added e failed = ([], e ∷ [])

  -- The objects of the types that a configuration may contain, which the client reads by name.
  unfoldable pub configuration_object :
      (get_xrd get_comp : Text → Got A) → ObjectRef → List A × List Error
  unfolding added
  configuration_object get_xrd get_comp ref =
      if not (group_of (split_on b'/' ref.api_version) == lit "apiextensions.crossplane.io")
      then ([], [])
      else if ref.kind == lit "CompositeResourceDefinition"
      then added Error.get_xrd (get_xrd ref.name)
      else if ref.kind == lit "Composition"
      then added Error.get_comp (get_comp ref.name)
      else ([], [])

  unfoldable pub provider_object : (Text → Got A) → ObjectRef → List A × List Error
  unfolding added
  provider_object get_crd ref =
      if not (ref.kind == lit "CustomResourceDefinition")
      then ([], [])
      else if not (group_of (split_on b'/' ref.api_version) == lit "apiextensions.k8s.io")
      then ([], [])
      else added Error.get_crd (get_crd ref.name)

  -- The objects in the order in which the goroutines end: they are not sorted.
  unfoldable pub answered : Bool → List A × List Error → Returned (Connection A)
  answered false got = refuse Error.get_client
  answered true (nodes, es) = record { value = connection nodes; errors = es }

  -- configurationRevisionStatus.Objects and providerRevisionStatus.Objects, of the references in the
  -- order in which their goroutines end.
  unfoldable pub configuration_objects :
      Bool → (get_xrd get_comp : Text → Got A) → List ObjectRef → Returned (Connection A)
  unfolding answered
  configuration_objects client get_xrd get_comp refs =
      answered client (collect (configuration_object get_xrd get_comp) refs)

  unfoldable pub provider_objects : Bool → (Text → Got A) → List ObjectRef → Returned (Connection A)
  unfolding answered
  provider_objects client get_crd refs = answered client (collect (provider_object get_crd) refs)
