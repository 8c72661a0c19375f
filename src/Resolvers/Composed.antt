-- ===== src/Resolvers/Composed.antt =====
-- The resources that a composite or a claim refers to: Resources and Resource of
-- internal/graph/resolvers/composite.go.
pub mod Schedules
use xgql.Prelude.{
  Bool, true, false, Option, none, some, List, [], ◌∷◌, ◌++◌, Text, text_ord, is_empty, by_key,
  stable, if◌then◌else◌,
}
use xgql.Model.Id.{ReferenceId, join}
use xgql.Resolvers.Connections.{collect}
use xgql.Resolvers.Objects.{
  Error, Object, Resource, composite, claim, other, id_of, as_composite, Got, found, not_found,
  failed, Server, model,
}

-- The key by which connections of resources are sorted.
abbrev pub sort_key : Resource → Text
sort_key r = join (id_of r)

module _ (srv : Server) where
  unfoldable pub modelled : Error → Option Resource → List Resource × List Error
  modelled e none = ([], e ∷ [])
  modelled e (some r) = (r ∷ [], [])

  -- What one goroutine of `Resources` adds.
  unfoldable pub answer : Got Object → List Resource × List Error
  answer (found o) = modelled Error.model_composed (model srv o)
  answer not_found = ([], [])
  answer failed = ([], Error.get_composed ∷ [])

  unfoldable pub compose : ReferenceId → List Resource × List Error
  unfolding answer modelled
  compose ref = if is_empty ref.name then ([], []) else answer (srv.get ref)

  unfoldable pub settled : Bool → List Resource × List Error → List Resource × List Error
  settled true (rs, es) = (stable (by_key sort_key) rs, es)
  settled false got = ([], Error.get_client ∷ [])

  -- compositeResourceSpec.Resources, of the references in the order in which their goroutines end.
  unfoldable pub resources : List ReferenceId → List Resource × List Error
  unfolding settled
  resources refs = settled srv.client (collect compose refs)

  unfoldable pub claimed : Got Object → List Resource × List Error
  claimed (found o) = (as_composite o ∷ [], [])
  claimed not_found = ([], [])
  claimed failed = ([], Error.get_xr ∷ [])

  -- compositeResourceClaimSpec.Resource: none or one.
  unfoldable pub claim_resource : Option ReferenceId → List Resource × List Error
  unfolding claimed
  claim_resource none = ([], [])
  claim_resource (some ref) =
      if srv.client
      then claimed (srv.get (record ref { namespace = [] }))
      else ([], Error.get_client ∷ [])
