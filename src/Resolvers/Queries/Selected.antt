-- ===== src/Resolvers/Queries/Selected.antt =====
-- What the arguments of the queries select.
use xgql.Prelude.{
  suc, ◌+◌, ◌≡◌, refl, ap, ◌∙◌, Bool, true, false, ◌&&◌, ◌||◌, not, Option, none, some, List, [],
  ◌∷◌, Text, lit, text_eq, ◌==◌, text_ord, length, exists_in, filter, stable, by_key, by_key-IsLess,
  IsOrdered, stable-IsOrdered, length-stable, arith, ◌⊎◌, inr,
}
use xgql.Model.Id.{ReferenceId}
use xgql.Resolvers.Objects.{Error, Returned, Object, Resource, Server, model}
use xgql.Resolvers.Composed.{sort_key}
use xgql.Resolvers.Connections.{Connection, OwnerReference, is_set, connection, listed}
use xgql.Resolvers.Connections.Selection.{IsSelection, listed-wanted}
use xgql.Resolvers.Queries.{
  Revision, Owned, revision_api_version, revision_kind, is_revision, contains_cr, has_id,
  contains_id, is_owned_by, keeps_revision, keeps_owned, provider_revisions,
  configuration_revisions, composite_resource_definitions, compositions,
  custom_resource_definitions, added, model_all, modelled,
}

-- What a query wants of an owned object: one of the references names the owner, where one is given.
abbrev pub wants : Option ReferenceId → List OwnerReference → Bool
wants none refs = true
wants (some id) refs =
    exists_in
      (λ ref. (ref.api_version == id.api_version) && (ref.kind == id.kind) && (ref.name == id.name))
      refs

-- No reference is to a configuration revision.
abbrev pub is_dangling : List OwnerReference → Bool
is_dangling refs = not (
    exists_in
      (λ ref.
        (ref.api_version == lit "pkg.crossplane.io/v1")
        && (ref.kind == lit "ConfigurationRevision"))
      refs)

exists_in-same :
    {A : Type 0} (p q : A → Bool) (xs : List A)
    → ((x : A) → p x ≡ q x)
    → exists_in p xs ≡ exists_in q xs
unfolding exists_in
exists_in-same p q [] h = refl
exists_in-same p q (x ∷ xs) h = rw (h x) (rw (exists_in-same p q xs h) refl)

is_owned_by_lem :
    (id : Option ReferenceId) (refs : List OwnerReference) → is_owned_by id refs ≡ wants id refs
unfolding is_owned_by contains_id has_id
is_owned_by_lem none refs = refl
is_owned_by_lem (some id) refs = exists_in-same _ _ refs (λ ref. ground arith)

contains_cr_lem : (refs : List OwnerReference) → not (contains_cr refs) ≡ is_dangling refs
unfolding contains_cr is_revision
contains_cr_lem refs = ap not (exists_in-same _ _ refs (λ ref. ground arith))

keeps_revision_lem :
    (owner : Option ReferenceId) (active : Option Bool) (r : Revision)
    → keeps_revision owner active r ≡ (wants owner r.owners && (not (is_set active) || r.is_active))
unfolding keeps_revision
keeps_revision_lem owner active r = ground (arith, is_owned_by_lem owner r.owners)

keeps_owned_lem :
    (owner : Option ReferenceId) (dangling : Option Bool) (o : Owned)
    → keeps_owned owner dangling o
      ≡ (wants owner o.owners && (not (is_set dangling) || is_dangling o.owners))
unfolding keeps_owned
keeps_owned_lem owner dangling o =
    ground (arith, is_owned_by_lem owner o.owners, contains_cr_lem o.owners)

-- A handler answers without an error, with a selection.
abbrev pub Selects :
    {A : Type 0} → (A → ReferenceId) → (A → Bool) → List A → Returned (Connection A) → Type 0
Selects id want items r = IsSelection id want items r.value × (r.errors ≡ [])

listed-Selects :
    {A : Type 0} (id : A → ReferenceId) (e : Error) (keep want : A → Bool) (items : List A)
    → ((a : A) → keep a ≡ want a)
    → Selects id want items (listed id e keep true (some items))
unfolding listed
listed-Selects id e keep want items h = (listed-wanted id e keep want items h, refl)

-- With a client and a list, the connections of the queries are selections: of provider and configuration
-- revisions those that refer to the owner asked for and, if asked so, are active; of composite resource
-- definitions and compositions those that refer to the owner asked for and, if asked so, to no
-- configuration revision; of custom resource definitions those that refer to the owner asked for. The
-- selection is ordered by id, its count is right, and there is no error.
pub queries-IsSelection :
    (revisions : List Revision) (owned : List Owned) (owner : Option ReferenceId)
    (flag : Option Bool)
    → Selects Revision.id
        (λ r. wants owner r.owners && (not (is_set flag) || r.is_active))
        revisions
        (provider_revisions true (some revisions) owner flag)
      × Selects Revision.id
          (λ r. wants owner r.owners && (not (is_set flag) || r.is_active))
          revisions
          (configuration_revisions true (some revisions) owner flag)
      × Selects Owned.id
          (λ o. wants owner o.owners && (not (is_set flag) || is_dangling o.owners))
          owned
          (composite_resource_definitions true (some owned) owner flag)
      × Selects Owned.id
          (λ o. wants owner o.owners && (not (is_set flag) || is_dangling o.owners))
          owned
          (compositions true (some owned) owner flag)
      × Selects Owned.id
          (λ o. wants owner o.owners)
          owned
          (custom_resource_definitions true (some owned) owner)
unfolding provider_revisions configuration_revisions composite_resource_definitions compositions
    custom_resource_definitions
queries-IsSelection revisions owned owner flag = (
  listed-Selects Revision.id _ _ _ revisions (keeps_revision_lem owner flag),
  listed-Selects Revision.id _ _ _ revisions (keeps_revision_lem owner flag),
  listed-Selects Owned.id _ _ _ owned (keeps_owned_lem owner flag),
  listed-Selects Owned.id _ _ _ owned (keeps_owned_lem owner flag),
  listed-Selects Owned.id _ _ _ owned (λ o. is_owned_by_lem owner o.owners),
)

-- The id of a configuration revision.
abbrev pub revision_named : Text → ReferenceId
revision_named name = record {
  api_version = revision_api_version;
  kind = revision_kind;
  namespace = [];
  name = name;
}

both_none :
    (refs : List OwnerReference) (name : Text)
    → (contains_cr refs ≡ true) ⊎ (contains_id refs (revision_named name) ≡ false)
unfolding contains_cr contains_id exists_in is_revision has_id
both_none [] name = inr refl
both_none (ref ∷ refs) name = ground (arith, both_none refs name)

dangling_excludes :
    (name : Text) (o : Owned) → keeps_owned (some (revision_named name)) (some true) o ≡ false
unfolding keeps_owned is_owned_by is_set
dangling_excludes name o = ground (arith, both_none o.owners name)

filter-none : {A : Type 0} (p : A → Bool) (xs : List A) → ((x : A) → p x ≡ false) → filter p xs ≡ []
unfolding filter
filter-none p [] h = refl
filter-none p (x ∷ xs) h = rw (h x) (filter-none p xs h)

-- A query for dangling definitions or compositions of a configuration revision has an empty answer and no
-- error, whatever the list is.
queries-dangling :
    (owned : List Owned) (name : Text)
    → (composite_resource_definitions true (some owned) (some (revision_named name)) (some true)
        ≡ record { value = connection []; errors = [] })
      × (compositions true (some owned) (some (revision_named name)) (some true)
          ≡ record { value = connection []; errors = [] })
unfolding composite_resource_definitions compositions listed stable
queries-dangling owned name =
    let none_left =
      filter-none (keeps_owned (some (revision_named name)) (some true)) owned
        (dangling_excludes name) in
    (rw none_left refl, rw none_left refl)

module _ (srv : Server) where
  counted_added :
      (r : Option Resource) (got : List Resource × List Error)
      → length (added srv r got).0 + length (added srv r got).1 ≡ suc (length got.0 + length got.1)
  unfolding added
  counted_added none got = omega arith
  counted_added (some r) got = omega arith

  counted :
      (os : List Object) → length (model_all srv os).0 + length (model_all srv os).1 ≡ length os
  unfolding model_all
  counted [] = refl
  counted (o ∷ os) = counted_added (model srv o) (model_all srv os) ∙ ap suc (counted os)

  -- What `KubernetesResources` answers for a list of objects: as many nodes and errors as there are
  -- objects, the count of the nodes being right and the nodes ordered by id.
  modelled_lem :
      (os : List Object)
      → let r = modelled srv true (some os) in
        (r.value.total_count + length r.errors ≡ length os)
        × (r.value.total_count ≡ length r.value.nodes)
        × IsOrdered (by_key sort_key) r.value.nodes
  unfolding modelled
  modelled_lem os = (
    omega (arith, counted os, length-stable (by_key sort_key) (model_all srv os).0),
    refl,
    stable-IsOrdered (by_key sort_key) (model_all srv os).0 (by_key-IsLess sort_key),
  )
