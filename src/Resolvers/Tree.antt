-- ===== src/Resolvers/Tree.antt =====
-- CrossplaneResourceTree of internal/graph/resolvers/query.go: a resource with all that it is composed of.
-- The resolver recurs without a bound; the fuel here is the depth to which it is followed.
pub mod Depth
pub mod Parents
use xgql.Prelude.{
  ℕ, zero, suc, Bool, true, false, Option, none, some, List, [], ◌∷◌, ◌++◌, is_empty, if◌then◌else◌,
}
use xgql.Model.Id.{ReferenceId}
use xgql.Resolvers.Objects.{
  Error, Returned, Object, Resource, composite, claim, other, id_of, Got, found, not_found, failed,
  Server, model,
}
use xgql.Resolvers.Composed.{resources, claim_resource}

-- CrossplaneResourceTreeNode
pub record Node : Type 0 where
  pub parent_id : Option ReferenceId
  pub resource : Resource

-- The nodes that a call collects, or the errors that are there by its end; with an error there are no
-- nodes. The count of the connection is that of the nodes. A goroutine may end early when another one
-- failed, so that the source adds fewer errors then.
pub record Walk : Type 0 where
  pub nodes : List Node
  pub errors : List Error

abbrev pub failing : List Error → Walk
failing es = record { nodes = []; errors = es }

module _ (srv : Server) where
  -- The resources that a resource is made of, by its type.
  unfoldable pub descend : Resource → List Resource × List Error
  descend (composite id refs) = resources srv refs
  descend (claim id ref) = claim_resource srv ref
  descend (other k id) = ([], [])

-- The lists of the children, one after the other.
unfoldable pub joined : Option Walk → Option Walk → Option Walk
joined none rest = none
joined (some w) none = none
joined (some w) (some v) =
    some (record { nodes = w.nodes ++ v.nodes; errors = w.errors ++ v.errors })

unfoldable pub walk_all : (Resource → Option Walk) → List Resource → Option Walk
unfolding joined
walk_all walk [] = some (failing [])
walk_all walk (r ∷ rs) = joined (walk r) (walk_all walk rs)

-- The list of a call, from those of its children.
unfoldable pub ended : Node → List Error → List Node → Walk
ended n [] ns = record { nodes = n ∷ ns; errors = [] }
ended n (e ∷ es) ns = failing (e ∷ es)

unfoldable pub under : Node → Option Walk → Option Walk
unfolding ended
under n none = none
under n (some w) = some (ended n w.errors w.nodes)

-- With an error of its own a call does not go on.
unfoldable pub level : Node → List Error → Option Walk → Option Walk
unfolding under
level n [] children = under n children
level n (e ∷ es) children = some (failing (e ∷ es))

module _ (srv : Server) where
  -- getAllDescendant
  unfoldable pub get_all_descendant : ℕ → Option ReferenceId → Resource → Option Walk
  unfolding level
  get_all_descendant zero parent r = none
  get_all_descendant (suc depth) parent r =
      let (rs, es) = descend srv r in
      level (record { parent_id = parent; resource = r }) es
        (walk_all (get_all_descendant depth (some (id_of r))) rs)

  -- What `KubernetesResource` makes of an object.
  unfoldable pub modelled : Option Resource → Option Resource × List Error
  modelled none = (none, Error.model_resource ∷ [])
  modelled (some r) = (some r, [])

  unfoldable pub answer : Got Object → Option Resource × List Error
  unfolding modelled
  answer (found o) = modelled (model srv o)
  answer not_found = (none, Error.get_resource ∷ [])
  answer failed = (none, Error.get_resource ∷ [])

  -- KubernetesResource
  unfoldable pub kubernetes_resource : ReferenceId → Option Resource × List Error
  unfolding answer
  kubernetes_resource id = if srv.client then answer (srv.get id) else (none, Error.get_client ∷ [])

  unfoldable pub rooted : ℕ → Option Resource × List Error → Option Walk
  rooted depth (none, es) = some (failing es)
  rooted depth (some r, es) = get_all_descendant depth none r

  -- CrossplaneResourceTree
  unfoldable pub crossplane_resource_tree : ℕ → ReferenceId → Option Walk
  unfolding rooted
  crossplane_resource_tree depth id = rooted depth (kubernetes_resource id)
