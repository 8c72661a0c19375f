-- ===== src/Resolvers/Packages/Active.antt =====
-- The active revision of a package among its revisions, and the order of a revision's objects.
use xgql.Prelude.{
  ◌≡◌, refl, sym, ap, ◌∙◌, Bool, true, ◌&&◌, ◌||◌, Option, none, some, List, [], ◌∷◌, Text,
  exists_in, filter, stable, by_key, text_ord, exists_in-stable, exists_in-filter, Reorders, arith,
  text_eq,
}
use xgql.Model.Id.{join}
use xgql.Resolvers.Objects.{Got}
use xgql.Resolvers.Connections.{OwnerReference, listed, first, listed_first}
use xgql.Resolvers.Connections.Schedules.{collect-Reorders}
use xgql.Resolvers.Connections.First.{IsOneOf, first-IsOneOf}
use xgql.Resolvers.Queries.{Revision}
use xgql.Resolvers.Packages.{
  ObjectRef, is_ours, is_active_ours, configuration_revisions, provider_revisions,
  configuration_active, provider_active, configuration_object, provider_object, answered,
  configuration_objects, provider_objects,
}

module _ {A : Type 0} where
  IsOneOf-same :
      (keep keeps : A → Bool) (xs ys : List A) (r : Option A)
      → ((a : A) → keep a ≡ true → keeps a ≡ true)
      → exists_in keep xs ≡ exists_in keeps ys
      → ((p : A → Bool) → exists_in (λ x. keep x && p x) xs ≡ exists_in (λ x. keeps x && p x) ys)
      → IsOneOf keep xs r
      → IsOneOf keeps ys r
  IsOneOf-same keep keeps xs ys none f e same h = sym e ∙ h
  IsOneOf-same keep keeps xs ys (some a) f e same (k, h) =
      (f a k, λ p. sym (same p) ∙ h p ∙ ap (λ b. p a || b) (same p))

module _ (controller_of : List OwnerReference → Option OwnerReference) (uid : Text) where
  exists_in-ours :
      (p : Revision → Bool) (items : List Revision)
      → exists_in (λ r. is_active_ours controller_of uid r && p r) items
        ≡ exists_in (λ r. is_ours controller_of uid r && (r.is_active && p r)) items
  unfolding exists_in is_active_ours
  exists_in-ours p [] = refl
  exists_in-ours p (r ∷ items) = ground (arith, exists_in-ours p items)

  exists_in-active :
      (items : List Revision)
      → exists_in (is_active_ours controller_of uid) items
        ≡ exists_in (λ r. is_ours controller_of uid r && r.is_active) items
  unfolding exists_in is_active_ours
  exists_in-active [] = refl
  exists_in-active (r ∷ items) = ground (arith, exists_in-active items)

  is_active_first : (r : Revision) → is_active_ours controller_of uid r ≡ true → r.is_active ≡ true
  unfolding is_active_ours
  is_active_first r h = ground (arith, h)

  active_lem :
      (items : List Revision)
      → IsOneOf Revision.is_active
          (stable (by_key (λ r. join (Revision.id r))) (filter (is_ours controller_of uid) items))
          (first (is_active_ours controller_of uid) items)
  active_lem items =
      let before = by_key (λ r. join (Revision.id r)) in
      let ours = filter (is_ours controller_of uid) items in
      IsOneOf-same (is_active_ours controller_of uid) Revision.is_active items (stable before ours)
        (first (is_active_ours controller_of uid) items) is_active_first
        (exists_in-active items
          ∙ sym (exists_in-filter Revision.is_active (is_ours controller_of uid) items)
          ∙ sym (exists_in-stable Revision.is_active before ours))
        (λ p.
          exists_in-ours p items
          ∙ sym (exists_in-filter (λ r. r.is_active && p r) (is_ours controller_of uid) items)
          ∙ sym (exists_in-stable (λ r. r.is_active && p r) before ours))
        (first-IsOneOf (is_active_ours controller_of uid) items)

  -- With a client and a list, the active revision of a configuration and of a provider is one of the
  -- active ones among its revisions; there is none only where none of its revisions is active.
  pub active-revisions :
      (items : List Revision)
      → IsOneOf Revision.is_active
          (configuration_revisions controller_of true (some items) uid).value.nodes
          (configuration_active controller_of true (some items) uid).value
        × IsOneOf Revision.is_active
            (provider_revisions controller_of true (some items) uid).value.nodes
            (provider_active controller_of true (some items) uid).value
  unfolding configuration_revisions provider_revisions configuration_active provider_active listed
      listed_first
  active-revisions items = (active_lem items, active_lem items)

module _ {A : Type 0} where
  -- The objects of a configuration revision and of a provider revision are those of their references,
  -- whatever the order in which the goroutines end, but in that order.
  objects-Reorders :
      (get_xrd get_comp get_crd : Text → Got A) {xs ys : List ObjectRef}
      → Reorders xs ys
      → Reorders
          (configuration_objects true get_xrd get_comp xs).value.nodes
          (configuration_objects true get_xrd get_comp ys).value.nodes
        × Reorders
            (provider_objects true get_crd xs).value.nodes
            (provider_objects true get_crd ys).value.nodes
  unfolding configuration_objects provider_objects answered
  objects-Reorders get_xrd get_comp get_crd r = (
    collect-Reorders (configuration_object get_xrd get_comp) r,
    collect-Reorders (provider_object get_crd) r,
  )
