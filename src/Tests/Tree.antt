-- ===== src/Tests/Tree.antt =====
-- The tree of a resource at concrete inputs.
use xgql.Prelude.{
  ℕ, ◌+◌, ◌<◌, arith, ◌≡◌, refl, inl, Bool, true, false, none, some, List, [], ◌∷◌, Text, lit,
  text_eq, ◌==◌, if◌then◌else◌, All, Any, swap, stable, place, text_beq, text_less,
}
use xgql.Model.Id.{ReferenceId, join}
use xgql.Kube.{gvk_beq}
use xgql.Model.Detect.{
  Unstructured, Kind, core, get_kubernetes_resource, is_converted, kind_of, is_provider_config,
  is_composite, is_claim, is_managed, kind_of_gvk,
}
use xgql.Resolvers.Objects.{
  model, of_kind, as_composite, Resource, id_of, composite, claim, other, Object, Got, found,
  not_found, Server,
}
use xgql.Resolvers.Connections.{collect}
use xgql.Resolvers.Composed.{
  sort_key, resources, claim_resource, claimed, settled, compose, answer, modelled,
}
use xgql.Resolvers.Composed.Schedules.{resources-Reorders}
use xgql.Resolvers.Tree.{Walk, descend, get_all_descendant}
use xgql.Resolvers.Tree.Depth.{get_all_descendant-rank, get_all_descendant-cycle}
use xgql.Resolvers.Tree.Parents.{On, IsTree, get_all_descendant-IsTree}

abbrev named : Text → ReferenceId
named name = record { api_version = lit "v1"; kind = lit "Thing"; namespace = []; name = name }

abbrev thing : Bool → Unstructured
thing is_composite = record {
  gvk = core (lit "Thing");
  namespace = [];
  composition_ref = is_composite;
  composition_selector = false;
  resource_refs = false;
  resource_ref = false;
  write_connection_secret_to_ref = false;
  provider_config_ref_name = false;
}

abbrev refs : List ReferenceId
refs = named (lit "b") ∷ named (lit "gone") ∷ named (lit "a") ∷ []

abbrev leaf : ReferenceId → Object
leaf id = record { id = id; shape = thing false; resource_refs = []; resource_ref = none }

abbrev made_of : List ReferenceId → ReferenceId → Object
made_of refs id = record { id = id; shape = thing true; resource_refs = refs; resource_ref = none }

abbrev get : ReferenceId → Got Object
get id =
    if id.name == lit "xr"
    then found (made_of refs id)
    else if id.name == lit "gone"
    then not_found
    else found (leaf id)

abbrev srv : Server
srv = record { client = true; get = get; convert = λ u k. true }

abbrev root : Resource
root = claim (named (lit "c")) (some (named (lit "xr")))

abbrev xr : Resource
xr = composite (named (lit "xr")) refs

abbrev leaf_of : Text → Resource
leaf_of name = other Kind.generic (named name)

data Known : Resource → Type 0 where
  root_known : Known root
  xr_known : Known xr
  a_known : Known (leaf_of (lit "a"))
  b_known : Known (leaf_of (lit "b"))

abbrev rank : Resource → ℕ
rank (composite _ _) = 1
rank (claim _ _) = 2
rank (other _ _) = 0

falls : (c : Resource) → Known c → All (λ d. Known d × (rank d < rank c)) (descend srv c).0
unfolding descend claim_resource claimed as_composite resources settled stable place collect compose
    answer modelled model get_kubernetes_resource is_converted kind_of is_provider_config
    is_composite is_claim is_managed kind_of_gvk gvk_beq of_kind text_beq text_less join id_of
falls _ root_known = ((xr_known, omega arith), tt)
falls _ xr_known = ((a_known, omega arith), ((b_known, omega arith), tt))
falls _ a_known = tt
falls _ b_known = tt

get_all_descendant-rank_example :
    (w : Walk) × ((more : ℕ) → get_all_descendant srv (more + 3) none root ≡ some w)
get_all_descendant-rank_example = get_all_descendant-rank srv Known rank none root falls root_known

get_all_descendant-IsTree_example : On (IsTree srv none root) (get_all_descendant srv 3 none root)
get_all_descendant-IsTree_example = get_all_descendant-IsTree srv 3 none root

abbrev looped : Resource
looped = composite (named (lit "xr")) (named (lit "xr") ∷ [])

data Looped : Resource → Type 0 where
  loop : Looped looped

abbrev cyclic : Server
cyclic = record { client = true; get = λ id. found (made_of (id ∷ []) id); convert = λ u k. true }

loops : (r : Resource) → Looped r → ((descend cyclic r).1 ≡ []) × Any Looped (descend cyclic r).0
unfolding descend claim_resource claimed as_composite resources settled stable place collect compose
    answer modelled model get_kubernetes_resource is_converted kind_of is_provider_config
    is_composite is_claim is_managed kind_of_gvk gvk_beq of_kind text_beq text_less join id_of
loops _ loop = (refl, inl loop)

get_all_descendant-cycle_example : get_all_descendant cyclic 50 none looped ≡ none
get_all_descendant-cycle_example = get_all_descendant-cycle cyclic Looped loops 50 none looped loop

data Leaf : Resource → Type 0 where
  a_leaf : Leaf (leaf_of (lit "a"))
  b_leaf : Leaf (leaf_of (lit "b"))

only_one : (a b : Resource) → Leaf a → Leaf b → sort_key a ≡ sort_key b → a ≡ b
unfolding join id_of
only_one _ _ a_leaf a_leaf p = refl
only_one _ _ a_leaf b_leaf p = absurd (ground (arith, p))
only_one _ _ b_leaf a_leaf p = absurd (ground (arith, p))
only_one _ _ b_leaf b_leaf p = refl

leaves : All Leaf (collect (compose srv) refs).0
unfolding descend claim_resource claimed as_composite resources settled stable place collect compose
    answer modelled model get_kubernetes_resource is_converted kind_of is_provider_config
    is_composite is_claim is_managed kind_of_gvk gvk_beq of_kind text_beq text_less join id_of
leaves = (b_leaf, (a_leaf, tt))

resources-Reorders_example :
    (resources srv refs).0
    ≡ (resources srv (named (lit "gone") ∷ named (lit "b") ∷ named (lit "a") ∷ [])).0
resources-Reorders_example = resources-Reorders srv Leaf only_one leaves (swap _ _ _)
