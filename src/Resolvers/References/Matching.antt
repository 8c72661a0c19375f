-- ===== src/Resolvers/References/Matching.antt =====
-- The definition that a resource gets is one of its group and kind.
use xgql.Prelude.{
  ◌≡◌, sym, ap, Bool, true, false, ◌&&◌, Option, none, some, List, ◌∷◌, ◌++◌, Text, text_eq, ◌==◌,
  arith, Bool-cases, inl, inr, text_beq_iff,
}
use xgql.Resolvers.Objects.{Got, found, not_found, failed}
use xgql.Resolvers.Connections.{first}
use xgql.Resolvers.Connections.First.{IsOneOf, first-IsOneOf}
use xgql.Resolvers.References.{
  Xrd, Crd, defines, offers, is_of, parsed, composite_definition, claim_definition, unread, checked,
  found_or, searched, looked_up, of_group, managed_definition,
}

-- A definition, if there is one, has the group and the kind.
abbrev pub IsOf : Option Text → Text → Option Crd → Type 0
IsOf group kind none = Unit
IsOf group kind (some c) = (group ≡ some c.group) × (c.kind ≡ kind)

module _ (g kind : Text) where
  checked-IsOf : (c : Crd) → IsOf (some g) kind (checked g kind c)
  unfolding checked
  checked-IsOf c = elim (Bool-cases ((c.group == g) && (c.kind == kind))) [
    | inl p ↦ rw p (
      ap some (sym (ground (arith, p, text_beq_iff c.group g))),
      ground (arith, p, text_beq_iff c.kind kind),
    )
    | inr p ↦ rw p tt
  ]

  listed-IsOf :
      (items : List Crd) (r d : Option Crd)
      → IsOneOf (is_of g kind) items r
      → IsOf (some g) kind d
      → IsOf (some g) kind (found_or r d)
  unfolding found_or is_of
  listed-IsOf items none d h k = k
  listed-IsOf items (some c) d h k = (
    ap some (sym (ground (arith, h.0, text_beq_iff c.group g))),
    ground (arith, h.0, text_beq_iff c.kind kind),
  )

  looked_up-IsOf :
      (got : Got Crd) (items : Option (List Crd))
      → IsOf (some g) kind (looked_up g kind got items).value
  unfolding looked_up searched
  looked_up-IsOf (found c) items = checked-IsOf c
  looked_up-IsOf failed items = tt
  looked_up-IsOf not_found none = tt
  looked_up-IsOf not_found (some items) =
      listed-IsOf items (first (is_of g kind) items) (checked g kind unread)
        (first-IsOneOf (is_of g kind) items) (checked-IsOf unread)

of_group-IsOf :
    (plural : Text → Text) (get : Text → Got Crd) (items : Option (List Crd)) (kind : Text)
    (group : Option Text)
    → IsOf group kind (of_group plural get items kind group).value
unfolding of_group
of_group-IsOf plural get items kind none = tt
of_group-IsOf plural get items kind (some g) =
    looked_up-IsOf g kind (get (plural kind ++ b'.' ∷ g)) items

-- The definition of a composite resource, or of a claim, is the first that fits.
parsed-IsOneOf :
    (matches : Text → Xrd → Bool) (g : Text) (items : List Xrd)
    → IsOneOf (matches g) items (parsed matches (some g) true (some items)).value
unfolding parsed
parsed-IsOneOf matches g items = first-IsOneOf (matches g) items

module _ (parse_group : Text → Option Text) where
  -- Whatever the client reads and lists, the definition that a managed resource or a provider configuration
  -- gets, if it gets one, has the kind of the resource and the group of its API version.
  managed_definition-IsOf :
      (client : Bool) (plural : Text → Text) (get : Text → Got Crd) (items : Option (List Crd))
      (api_version kind : Text)
      → IsOf
          (parse_group api_version)
          kind
          (managed_definition parse_group client plural get items api_version kind).value
  unfolding managed_definition
  managed_definition-IsOf false plural get items api_version kind = tt
  managed_definition-IsOf true plural get items api_version kind =
      of_group-IsOf plural get items kind (parse_group api_version)

  -- With a client, a list of composite resource definitions and an API version of group g, the definition
  -- of a composite resource is one of the list that defines its group and kind, and that of a claim one
  -- that offers claims of its group and kind; there is none only if the list has none.
  definition-IsOneOf :
      (items : List Xrd) (api_version g kind : Text)
      → parse_group api_version ≡ some g
      → IsOneOf
          (defines g kind)
          items
          (composite_definition parse_group true (some items) api_version kind).value
        × IsOneOf
            (offers g kind)
            items
            (claim_definition parse_group true (some items) api_version kind).value
  unfolding composite_definition claim_definition
  definition-IsOneOf items api_version g kind h =
      rw h
        (parsed-IsOneOf (λ g. defines g kind) g items, parsed-IsOneOf (λ g. offers g kind) g items)
