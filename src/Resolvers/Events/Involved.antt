-- ===== src/Resolvers/Events/Involved.antt =====
-- The events of one object, which `Resolve` of internal/graph/resolvers/event.go filters.
use xgql.Prelude.{
  ℕ, ◌≡◌, refl, ◌⊎◌, inl, inr, Bool, true, ◌&&◌, List, [], ◌∷◌, length, some, Text, text_eq,
  text_beq_iff, is_empty, arith, Bool-cases, exists_in, exists_in-stable, exists_in-filter,
}
use xgql.Resolvers.Events.{ObjectReference, Event, involves, involved, greater, connection, resolve}

-- The events of an object are, in some order, exactly those of the list that involve it: whatever test is
-- made, one of them passes it if and only if one of the list involves the object and passes it.
resolve-involved :
    (target upper_bound : ℕ) (items : List Event) (ref : ObjectReference) (p : Event → Bool)
    → let r = resolve target upper_bound true (some items) (some ref) in
      (exists_in p r.events.nodes ≡ exists_in (λ e. involves e ref && p e) items)
      × (r.events.total_count ≡ length r.events.nodes)
unfolding resolve connection involved
resolve-involved target upper_bound items ref p = (
  ground (
    arith,
    exists_in-stable p greater (involved ref items),
    exists_in-filter p (λ e. involves e ref) items,
  ),
  refl,
)

is_empty_nil : (s : Text) → is_empty s ≡ true → s ≡ []
is_empty_nil [] h = refl
is_empty_nil (x ∷ s) h = ground arith

-- An event that involves a reference has its UID, or the reference has none and the event has its API
-- version, kind, namespace and name.
involves_lem :
    (e : Event) (ref : ObjectReference)
    → involves e ref ≡ true
    → (ref.uid ≡ e.involved_object.uid)
      ⊎ ((ref.uid ≡ [])
          × (ref.api_version ≡ e.involved_object.api_version)
          × (ref.kind ≡ e.involved_object.kind)
          × (ref.namespace ≡ e.involved_object.namespace)
          × (ref.name ≡ e.involved_object.name))
unfolding involves
involves_lem e ref h =
    let o = e.involved_object in
    elim (Bool-cases (is_empty ref.uid)) [
      | inr p ↦ inl (ground (arith, p, h, text_beq_iff ref.uid o.uid))
      | inl p ↦ inr (
        is_empty_nil ref.uid p,
        ground (arith, p, h, text_beq_iff ref.api_version o.api_version),
        ground (arith, p, h, text_beq_iff ref.kind o.kind),
        ground (arith, p, h, text_beq_iff ref.namespace o.namespace),
        ground (arith, p, h, text_beq_iff ref.name o.name),
      )
    ]
