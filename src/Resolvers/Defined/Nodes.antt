-- ===== src/Resolvers/Defined/Nodes.antt =====
-- When `DefinedResources` panics, and what it returns.
use xgql.Prelude.{
  ◌≤◌, ◌≡◌, refl, ap, ◌∙◌, Bool, true, false, ◌||◌, Option, none, some, List, [], ◌∷◌, map, length,
  exists_in, stable, by_key, text_ord, length-stable, arith, Option-cases, inl, inr,
}
use xgql.Resolvers.Objects.{Error, Returned, Object, Resource, Server, model}
use xgql.Resolvers.Composed.{sort_key}
use xgql.Resolvers.Connections.{Connection, connection}
use xgql.Resolvers.Defined.{Node, returned, panics, proper, sorted, error_of, model_nodes, answer}

abbrev pub is_nil : Option Resource → Bool
is_nil none = true
is_nil (some r) = false

length-map : {A B : Type 0} (f : A → B) (xs : List A) → length (map f xs) ≡ length xs
length-map f [] = refl
length-map f (x ∷ xs) = omega (arith, length-map f xs)

proper_nil : (ns : List Node) → exists_in is_nil ns ≡ true → proper ns ≡ none
unfolding proper exists_in
proper_nil [] h = absurd (ground (arith, h))
proper_nil (none ∷ ns) h = refl
proper_nil (some r ∷ ns) h = rw (proper_nil ns h) refl

proper-some :
    (ns : List Node)
    → exists_in is_nil ns ≡ false
    → (rs : List Resource) × (proper ns ≡ some rs) × (length rs ≡ length ns)
unfolding proper exists_in
proper-some [] h = ([], refl, refl)
proper-some (none ∷ ns) h = absurd (ground (arith, h))
proper-some (some r ∷ ns) h =
    let (rs, p, q) = proper-some ns h in (r ∷ rs, rw p refl, omega (arith, q))

module _ (srv : Server) where
  abbrev pub is_unknown : Object → Bool
  is_unknown o = is_nil (model srv o)

  nil_nodes : (os : List Object) → exists_in is_nil (model_nodes srv os).0 ≡ exists_in is_unknown os
  unfolding exists_in model_nodes
  nil_nodes [] = refl
  nil_nodes (o ∷ os) = ap (λ b. is_unknown o || b) (nil_nodes os)

  no_errors : (os : List Object) → exists_in is_unknown os ≡ false → (model_nodes srv os).1 ≡ []
  unfolding exists_in model_nodes error_of
  no_errors [] h = refl
  no_errors (o ∷ os) h = elim (Option-cases (model srv o)) [
    | inl p ↦ absurd (ground (arith, h, p))
    | inr (r, p) ↦ rw p (no_errors os (ground (arith, h, p)))
  ]

  length-model_nodes : (os : List Object) → length (model_nodes srv os).0 ≡ length os
  unfolding model_nodes
  length-model_nodes [] = refl
  length-model_nodes (o ∷ os) = omega (arith, length-model_nodes os)

  sorted_nil : (es : List Error) (ns : List Node) → 2 ≤ length ns → sorted es ns none ≡ panics
  unfolding sorted
  sorted_nil es [] h = absurd (omega (arith, h))
  sorted_nil es (n ∷ []) h = absurd (omega (arith, h))
  sorted_nil es (n ∷ m ∷ ns) h = refl

  -- If `DefinedResources` lists two or more items and one of them cannot be modelled, it panics: the sort
  -- meets a nil node.
  pub answer-panics :
      (items : List Object)
      → exists_in is_unknown items ≡ true
      → 2 ≤ length items
      → answer srv true (some items) ≡ panics
  unfolding answer
  answer-panics items h le =
      let (nodes, es) = model_nodes srv items in
      rw (proper_nil nodes (nil_nodes items ∙ h))
        (sorted_nil es nodes (omega (arith, le, length-model_nodes items)))

  -- If all of the items can be modelled, `DefinedResources` returns a node for each of them, with their
  -- count and without an error.
  answer-returned :
      (items : List Object)
      → exists_in is_unknown items ≡ false
      → (r : Returned (Connection Node)) × (answer srv true (some items) ≡ returned r)
        × (r.value.total_count ≡ length items)
        × (r.value.total_count ≡ length r.value.nodes)
        × (r.errors ≡ [])
  unfolding answer sorted
  answer-returned items h =
      let (nodes, es) = model_nodes srv items in
      let (rs, p, q) = proper-some nodes (nil_nodes items ∙ h) in
      let found = stable (by_key sort_key) rs in
      (
        record { value = connection (map some found); errors = es },
        rw p refl,
        omega (
          arith,
          q,
          length-map some found,
          length-stable (by_key sort_key) rs,
          length-model_nodes items,
        ),
        refl,
        no_errors items h,
      )
