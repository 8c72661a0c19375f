-- ===== src/Resolvers/Connections.antt =====
-- What the resolvers of internal/graph/resolvers do alike: lists that are filtered and sorted, and reads of
-- one object. Whether there is a client, and what it lists or reads, are arguments.
pub mod First
pub mod Selection
pub mod Schedules
use xgql.Prelude.{
  ℕ, Bool, true, false, ◌&&◌, Option, none, some, List, [], ◌∷◌, ◌++◌, Text, text_eq, ◌==◌,
  text_ord, length, filter, stable, by_key, if◌then◌else◌,
}
use xgql.Model.Id.{ReferenceId, join}
use xgql.Resolvers.Objects.{Error, Returned, Got, found, not_found, failed}

-- A connection, with its total count.
pub record Connection (A : Type 0) : Type 0 where
  pub nodes : List A
  pub total_count : ℕ

-- metav1.OwnerReference
pub record OwnerReference : Type 0 where
  pub api_version : Text
  pub kind : Text
  pub name : Text
  pub uid : Text
  pub controller : Option Bool

-- The pointer to a Boolean, read with the default false.
unfoldable pub is_set : Option Bool → Bool
is_set none = false
is_set (some b) = b

module _ {A : Type 0} where
  abbrev pub connection : List A → Connection A
  connection nodes = record { nodes = nodes; total_count = length nodes }

  abbrev pub refuse : Error → Returned (Connection A)
  refuse e = record { value = connection []; errors = e ∷ [] }

  -- A handler that lists, keeps some of the items and sorts what it has kept by id.
  unfoldable pub listed :
      (A → ReferenceId) → Error → (A → Bool) → Bool → Option (List A) → Returned (Connection A)
  listed id e keep false items = refuse Error.get_client
  listed id e keep true none = refuse e
  listed id e keep true (some items) = record {
    value = connection (stable (by_key (λ a. join (id a))) (filter keep items));
    errors = [];
  }

  -- The first of the items that passes the test.
  unfoldable pub first : (A → Bool) → List A → Option A
  first keep [] = none
  first keep (a ∷ items) = let rest = first keep items in if keep a then some a else rest

  -- A handler that lists and answers with the first item that passes the test.
  unfoldable pub listed_first : Error → (A → Bool) → Bool → Option (List A) → Returned (Option A)
  unfolding first
  listed_first e keep false items = record { value = none; errors = Error.get_client ∷ [] }
  listed_first e keep true none = record { value = none; errors = e ∷ [] }
  listed_first e keep true (some items) = record { value = first keep items; errors = [] }

  -- A handler that reads an object, which has to be there.
  unfoldable pub required : Error → Bool → Got A → Returned (Option A)
  required e false got = record { value = none; errors = Error.get_client ∷ [] }
  required e true (found a) = record { value = some a; errors = [] }
  required e true not_found = record { value = none; errors = e ∷ [] }
  required e true failed = record { value = none; errors = e ∷ [] }

  -- A handler that reads an object, which may be absent.
  unfoldable pub optional : Error → Bool → Got A → Returned (Option A)
  optional e false got = record { value = none; errors = Error.get_client ∷ [] }
  optional e true (found a) = record { value = some a; errors = [] }
  optional e true not_found = record { value = none; errors = [] }
  optional e true failed = record { value = none; errors = e ∷ [] }

-- What goroutines add to a connection, in the order in which they end.
unfoldable pub collect : {R A : Type 0} → (R → List A × List Error) → List R → List A × List Error
collect add [] = ([], [])
collect add (r ∷ rs) =
    let (nodes, es) = add r in let (rest, errs) = collect add rs in (nodes ++ rest, es ++ errs)
