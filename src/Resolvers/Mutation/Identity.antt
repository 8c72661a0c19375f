-- ===== src/Resolvers/Mutation/Identity.antt =====
-- Which resource the mutations of internal/graph/resolvers/mutation.go change, and what they return.
use xgql.Prelude.{◌≡◌, refl, Bool, true, false, Option, none, some, List, [], ◌∷◌, Text, arith}
use xgql.Model.Id.{ReferenceId}
use xgql.Resolvers.Mutation.{
  Error, Answer, accepted, not_found, refused, Patch, Resources, Patched, ok, err, apply_patches,
  set_id, modelled, answered, submitted, create, update, ignore_not_found, delete,
}

-- The getters of an unstructured resource, with what they promise of the setters.
pub record Getters {U V R : Type 0} (rs : Resources U V R) : Type 0 where
  pub api_version : U → Text
  pub kind : U → Text
  pub namespace : U → Text
  pub name : U → Text
  pub api_version_set : (t : Text) (u : U) → api_version (rs.set_api_version t u) ≡ t
  pub api_version_kind : (t : Text) (u : U) → api_version (rs.set_kind t u) ≡ api_version u
  pub api_version_namespace :
      (t : Text) (u : U) → api_version (rs.set_namespace t u) ≡ api_version u
  pub api_version_name : (t : Text) (u : U) → api_version (rs.set_name t u) ≡ api_version u
  pub kind_set : (t : Text) (u : U) → kind (rs.set_kind t u) ≡ t
  pub kind_namespace : (t : Text) (u : U) → kind (rs.set_namespace t u) ≡ kind u
  pub kind_name : (t : Text) (u : U) → kind (rs.set_name t u) ≡ kind u
  pub namespace_set : (t : Text) (u : U) → namespace (rs.set_namespace t u) ≡ t
  pub namespace_name : (t : Text) (u : U) → namespace (rs.set_name t u) ≡ namespace u
  pub name_set : (t : Text) (u : U) → name (rs.set_name t u) ≡ t

module _ {U V R : Type 0} (rs : Resources U V R) where
  -- The id that the getters read of a resource.
  abbrev pub id_of : Getters rs → U → ReferenceId
  id_of g u = record {
    api_version = g.api_version u;
    kind = g.kind u;
    namespace = g.namespace u;
    name = g.name u;
  }

  id_of-set_id : (g : Getters rs) (id : ReferenceId) (u : U) → id_of g (set_id rs id u) ≡ id
  unfolding set_id
  id_of-set_id g id u =
      let u1 = rs.set_api_version id.api_version u in
      let u2 = rs.set_kind id.kind u1 in
      let u3 = rs.set_namespace id.namespace u2 in
      ground (
        arith,
        g.api_version_set id.api_version u,
        g.api_version_kind id.kind u1,
        g.api_version_namespace id.namespace u2,
        g.api_version_name id.name u3,
        g.kind_set id.kind u1,
        g.kind_namespace id.namespace u2,
        g.kind_name id.name u3,
        g.namespace_set id.namespace u2,
        g.namespace_name id.name u3,
        g.name_set id.name u3,
      )

  -- Nothing was asked of the API server, or only of a resource with the id.
  abbrev pub OnlyCalls : Getters rs → ReferenceId → Option U → Type 0
  OnlyCalls g id none = Unit
  OnlyCalls g id (some u) = id_of g u ≡ id

  -- A resource and no error, or one error and no resource.
  abbrev pub IsOutcome : Option R → List Error → Type 0
  IsOutcome (some r) [] = Unit
  IsOutcome none (e ∷ []) = Unit
  IsOutcome _ _ = ⊥

  modelled-called : (u : U) (o : Option R) → (modelled rs u o).called ≡ some u
  unfolding modelled
  modelled-called u none = refl
  modelled-called u (some r) = refl

  answered-called : (e : Error) (u : U) (a : Answer U) → (answered rs e u a).called ≡ some u
  unfolding answered
  answered-called e u (accepted u') = modelled-called u (rs.model u')
  answered-called e u not_found = refl
  answered-called e u refused = refl

  modelled-IsOutcome :
      (u : U) (o : Option R) → IsOutcome (modelled rs u o).resource (modelled rs u o).errors
  unfolding modelled
  modelled-IsOutcome u none = tt
  modelled-IsOutcome u (some r) = tt

  answered-IsOutcome :
      (e : Error) (u : U) (a : Answer U)
      → IsOutcome (answered rs e u a).resource (answered rs e u a).errors
  unfolding answered
  answered-IsOutcome e u (accepted u') = modelled-IsOutcome u (rs.model u')
  answered-IsOutcome e u not_found = tt
  answered-IsOutcome e u refused = tt

  submitted-IsOutcome :
      (e : Error) (prepare : U → U) (api : U → Answer U) (p : Patched U)
      → IsOutcome (submitted rs e prepare api p).resource (submitted rs e prepare api p).errors
  unfolding submitted
  submitted-IsOutcome e prepare api (err f) = tt
  submitted-IsOutcome e prepare api (ok u) = answered-IsOutcome e (prepare u) (api (prepare u))

  submitted-OnlyCalls :
      (g : Getters rs) (id : ReferenceId) (e : Error) (api : U → Answer U) (p : Patched U)
      → OnlyCalls g id (submitted rs e (set_id rs id) api p).called
  unfolding submitted
  submitted-OnlyCalls g id e api (err f) = tt
  submitted-OnlyCalls g id e api (ok u) =
      rw (answered-called e (set_id rs id u) (api (set_id rs id u))) (id_of-set_id g id u)

  -- Whatever the input and its patches say, an update asks the API server of nothing but a resource
  -- with the id that the caller named.
  update-OnlyCalls :
      (g : Getters rs) (client : Bool) (api : U → Answer U) (id : ReferenceId) (input : Option U)
      (ps : List (Patch V))
      → OnlyCalls g id (update rs client api id input ps).called
  unfolding update
  update-OnlyCalls g false api id input ps = tt
  update-OnlyCalls g true api id none ps = tt
  update-OnlyCalls g true api id (some u) ps =
      submitted-OnlyCalls g id Error.update_resource api (apply_patches rs 0 ps u)

  create-IsOutcome :
      (client : Bool) (api : U → Answer U) (input : Option U) (ps : List (Patch V))
      → IsOutcome (create rs client api input ps).resource (create rs client api input ps).errors
  unfolding create
  create-IsOutcome false api input ps = tt
  create-IsOutcome true api none ps = tt
  create-IsOutcome true api (some u) ps =
      submitted-IsOutcome Error.create_resource (λ u'. u') api (apply_patches rs 0 ps u)

  update-IsOutcome :
      (client : Bool) (api : U → Answer U) (id : ReferenceId) (input : Option U)
      (ps : List (Patch V))
      → IsOutcome
          (update rs client api id input ps).resource
          (update rs client api id input ps).errors
  unfolding update
  update-IsOutcome false api id input ps = tt
  update-IsOutcome true api id none ps = tt
  update-IsOutcome true api id (some u) ps =
      submitted-IsOutcome Error.update_resource (set_id rs id) api (apply_patches rs 0 ps u)

  -- A creation returns a resource and no error, or one error and no resource, and so do an update
  -- and a deletion.
  pub mutation-IsOutcome :
      (client : Bool) (api : U → Answer U) (id : ReferenceId) (input : Option U)
      (ps : List (Patch V))
      → let c = create rs client api input ps in
        let u = update rs client api id input ps in
        let d = delete rs client api id in
        IsOutcome c.resource c.errors
        × IsOutcome u.resource u.errors
        × IsOutcome d.resource d.errors
  unfolding delete
  mutation-IsOutcome client api id input ps = (
    create-IsOutcome client api input ps,
    update-IsOutcome client api id input ps,
    deletion client,
  )
    where
      deletion :
          (client : Bool)
          → IsOutcome (delete rs client api id).resource (delete rs client api id).errors
      deletion false = tt
      deletion true =
          let u = set_id rs id rs.empty in
          answered-IsOutcome Error.delete_resource u (ignore_not_found rs u (api u))
