-- ===== src/Resolvers/Defined.antt =====
-- DefinedResources of internal/graph/resolvers/common.go: the resources of a custom resource definition.
pub mod Nodes
use xgql.Prelude.{
  Bool, true, false, Option, none, some, List, [], ◌∷◌, Text, text_ord, map, stable, by_key,
}
use xgql.Resolvers.Objects.{Error, Returned, Object, Resource, Server, model}
use xgql.Resolvers.Composed.{sort_key}
use xgql.Resolvers.Connections.{Connection, connection}
use xgql.Resolvers.Definitions.{
  CrdVersion, Names, Lister, pick_crd_version, version_of, defined_items,
}

-- A node, which is nil where the item could not be modelled.
abbrev pub Node : Type 0
Node = Option Resource

-- The end of a handler that may panic.
pub data Outcome : Type 0 where
  returned : Returned (Connection Node) → Outcome
  panics : Outcome

-- The nodes, where none is nil.
unfoldable pub proper : List Node → Option (List Resource)
proper [] = some []
proper (none ∷ ns) = none
proper (some r ∷ ns) = elim (proper ns) [ none ↦ none | some rs ↦ some (r ∷ rs) ]

-- sort.Stable with a `Less` that asserts a type of the nodes: it compares each of two nodes or more, and a
-- nil one fails the assertion.
unfoldable pub sorted : List Error → List Node → Option (List Resource) → Outcome
sorted es nodes (some rs) =
    returned (record { value = connection (map some (stable (by_key sort_key) rs)); errors = es })
sorted es [] none = returned (record { value = connection []; errors = es })
sorted es (n ∷ []) none = returned (record { value = connection (n ∷ []); errors = es })
sorted es (n ∷ m ∷ ns) none = panics

module _ (srv : Server) where
  unfoldable pub error_of : Option Resource → List Error → List Error
  error_of none es = Error.model_defined ∷ es
  error_of (some r) es = es

  -- The loop: the node is added whether or not there was an error.
  unfoldable pub model_nodes : List Object → List Node × List Error
  unfolding error_of
  model_nodes [] = ([], [])
  model_nodes (o ∷ os) =
      let (ns, es) = model_nodes os in (model srv o ∷ ns, error_of (model srv o) es)

  unfoldable pub answer : Bool → Option (List Object) → Outcome
  unfolding proper sorted
  answer false items = returned (record { value = connection []; errors = Error.get_client ∷ [] })
  answer true none = returned (record { value = connection []; errors = Error.list_resources ∷ [] })
  answer true (some items) = let (nodes, es) = model_nodes items in sorted es nodes (proper nodes)

  -- DefinedResources
  unfoldable pub defined_resources :
      (Text → Text → Text)
      → Lister Object
      → (group : Text) → Names
      → List CrdVersion
      → (version : Option Text) → Outcome
  unfolding answer
  defined_resources group_version list group names versions version = answer srv.client (
      defined_items group_version list group (version_of version (pick_crd_version versions)) names
        none)
