-- ===== src/Tests/Resolvers.antt =====
-- Events and mutations of internal/graph/resolvers at concrete inputs.
use xgql.Prelude.{
  ℕ, ◌≡◌, Bool, true, false, some, List, [], ◌∷◌, ◌++◌, Text, lit, length, ◌≤◌, arith,
}
use xgql.Model.Id.{ReferenceId}
use xgql.Resolvers.Events.{ObjectReference, Event, limit}
use xgql.Resolvers.Events.Limits.{HasEnough, limit_lem}
use xgql.Resolvers.Mutation.{not_found, Patch, Resources, create, update, delete}
use xgql.Resolvers.Mutation.Identity.{IsOutcome, mutation-IsOutcome}

abbrev pod : ObjectReference
pod = record {
  api_version = lit "v1";
  kind = lit "Pod";
  namespace = lit "default";
  name = lit "web";
  uid = lit "1";
}

abbrev named : Text → Bool → ℕ → Event
named name is_warning last_timestamp = record {
  id = record { api_version = lit "v1"; kind = lit "Event"; namespace = []; name = name };
  involved_object = pod;
  is_warning = is_warning;
  last_timestamp = last_timestamp;
}

abbrev items : List Event
items = named (lit "b") true 3 ∷ named (lit "a") false 5 ∷ named (lit "c") true 4 ∷ []

limit_lem_example :
    (length (limit 2 5 items) ≤ 5)
    × (left : List Event) × (items ≡ limit 2 5 items ++ left)
    × HasEnough 2 5 0 0 (limit 2 5 items) left
limit_lem_example = limit_lem 2 5 items (omega arith)

abbrev is_warning : Event → Bool
is_warning e = e.is_warning

-- Resources that are an id, which patches cannot change.
abbrev ids : Resources ReferenceId ℕ ReferenceId
ids = record {
  empty = record { api_version = []; kind = []; namespace = []; name = [] };
  set_value = λ p v u. some u;
  set_api_version = λ t u. record u { api_version = t };
  set_kind = λ t u. record u { kind = t };
  set_namespace = λ t u. record u { namespace = t };
  set_name = λ t u. record u { name = t };
  model = λ u. some u;
}

abbrev here : ReferenceId
here = record { api_version = lit "v1"; kind = lit "Pod"; namespace = []; name = lit "w" }

abbrev there : ReferenceId
there = record here { name = lit "other" }

abbrev patches : List (Patch ℕ)
patches = record { field_path = lit "spec"; value = some 1 } ∷ []

mutation-IsOutcome_example :
    let c = create ids true (λ u. not_found) (some there) patches in
    let u = update ids true (λ u. not_found) here (some there) patches in
    let d = delete ids true (λ u. not_found) here in
    IsOutcome ids c.resource c.errors
    × IsOutcome ids u.resource u.errors
    × IsOutcome ids d.resource d.errors
mutation-IsOutcome_example = mutation-IsOutcome ids true (λ u. not_found) here (some there) patches
