-- ===== src/Resolvers/Events.antt =====
-- internal/graph/resolvers/event.go: which events a query gets, and in which order.
pub mod Limits
pub mod Involved
use xgql.Prelude.{
  ℕ, ◌+◌, Bool, true, false, ◌&&◌, not, Option, none, some, List, [], ◌∷◌, Text, text_eq, ◌==◌,
  is_empty, length, ltb, if◌then◌else◌, filter, stable,
}
use xgql.Model.Id.{ReferenceId, less}

-- corev1.ObjectReference, as far as `involves` reads it.
pub record ObjectReference : Type 0 where
  pub api_version : Text
  pub kind : Text
  pub namespace : Text
  pub name : Text
  pub uid : Text

pub record Event : Type 0 where
  pub id : ReferenceId
  pub involved_object : ObjectReference
  pub is_warning : Bool
  pub last_timestamp : ℕ

-- EventConnection
pub record EventConnection : Type 0 where
  pub nodes : List Event
  pub total_count : ℕ

unfoldable pub connection : List Event → EventConnection
connection nodes = record { nodes = nodes; total_count = length nodes }

-- `involves`
unfoldable pub involves : Event → ObjectReference → Bool
involves e ref =
    if not (is_empty ref.uid)
    then ref.uid == e.involved_object.uid
    else if not (ref.api_version == e.involved_object.api_version)
    then false
    else if not (ref.kind == e.involved_object.kind)
    then false
    else if not (ref.namespace == e.involved_object.namespace)
    then false
    else ref.name == e.involved_object.name

-- The loop of `limit`, after so many nodes and warnings.
unfoldable pub limit_loop : (target upper_bound nodes warnings : ℕ) → List Event → List Event
limit_loop target upper_bound nodes warnings [] = []
limit_loop target upper_bound nodes warnings (e ∷ es) =
    let w = if e.is_warning then warnings + 1 else warnings in
    let rest = limit_loop target upper_bound (nodes + 1) w es in
    if not (ltb (nodes + 1) upper_bound)
    then e ∷ []
    else if not (ltb w target)
    then e ∷ []
    else e ∷ rest

-- `limit`, of the events in the order of their indices.
unfoldable pub limit : (target upper_bound : ℕ) → List Event → List Event
limit target upper_bound es = limit_loop target upper_bound 0 0 es

-- `Less` of timeOrderedEventIndices, and that of the connection in reverse.
unfoldable pub earlier : Event → Event → Bool
earlier a b = ltb a.last_timestamp b.last_timestamp

unfoldable pub greater : Event → Event → Bool
greater a b = less b.id a.id

-- The events that the loop keeps.
unfoldable pub involved : ObjectReference → List Event → List Event
involved ref es = filter (λ e. involves e ref) es

pub data Error : Type 0 where
  get_client list_events : Error

-- What `Resolve` returns, and the errors it adds.
pub record Resolved : Type 0 where
  pub events : EventConnection
  pub errors : List Error

-- Resolve: `client` is whether there is one, and `items` what it lists, where it can.
unfoldable pub resolve :
    (target upper_bound : ℕ) → Bool → Option (List Event) → Option ObjectReference → Resolved
resolve target upper_bound false items obj = record {
  events = connection [];
  errors = Error.get_client ∷ [];
}
resolve target upper_bound true none obj = record {
  events = connection [];
  errors = Error.list_events ∷ [];
}
resolve target upper_bound true (some items) none = record {
  events = connection (limit target upper_bound (stable earlier items));
  errors = [];
}
resolve target upper_bound true (some items) (some ref) = record {
  events = connection (stable greater (involved ref items));
  errors = [];
}
