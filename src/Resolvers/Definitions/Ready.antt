-- ===== src/Resolvers/Definitions/Ready.antt =====
-- Which resources the option `ready` selects, and which version is asked for.
use xgql.Prelude.{
  ◌≡◌, refl, ◌⊎◌, inl, inr, Bool, true, false, ◌&&◌, ◌||◌, not, Option, none, some, List, [], ◌∷◌,
  Text, lit, text_eq, ◌==◌, text_ord, text_beq_iff, exists_in, arith, Bool-cases,
}
use xgql.Resolvers.Connections.{first}
use xgql.Resolvers.Connections.First.{IsOneOf, first-IsOneOf}
use xgql.Resolvers.Connections.Selection.{IsSelection, listed-wanted}
use xgql.Resolvers.Definitions.{
  Condition, Status, Conditioned, Options, XrdSpec, Names, XrdVersion, is_status, matches,
  ready_matches, deprecation_patch, deprecation_patch_claim, options_of, pick_xrd_version, name_of,
  defined_items, defined_composite_resources, defined_claims, defined_composite_resource_claims,
}

-- Whether a resource is ready: the first condition of type Ready holds, and there is one.
abbrev pub holds : Option Condition → Bool
holds none = false
holds (some c) = is_status c.status true

abbrev pub is_ready : Conditioned → Bool
is_ready r = holds (first (λ c. c.type == lit "Ready") r.conditions)

is_status-false : (s : Status) → is_status s false ≡ not (is_status s true)
unfolding is_status
is_status-false Status.holds = refl
is_status-false Status.fails = refl
is_status-false Status.unknown = refl

matches_lem :
    (cs : List Condition)
    → (matches true cs ≡ holds (first (λ c. c.type == lit "Ready") cs))
      × (matches false cs ≡ not (holds (first (λ c. c.type == lit "Ready") cs)))
unfolding matches first
matches_lem [] = (refl, refl)
matches_lem (c ∷ cs) = elim (Bool-cases (c.type == lit "Ready")) [
  | inl p ↦ rw p (refl, is_status-false c.status)
  | inr p ↦ rw p (matches_lem cs)
]

-- What the option wants of a resource.
abbrev pub wants_ready : Option Bool → Conditioned → Bool
wants_ready none r = true
wants_ready (some true) r = is_ready r
wants_ready (some false) r = not (is_ready r)

ready_matches_lem :
    (ready : Option Bool) (r : Conditioned) → ready_matches ready r.conditions ≡ wants_ready ready r
unfolding ready_matches
ready_matches_lem none r = refl
ready_matches_lem (some true) r = (matches_lem r.conditions).0
ready_matches_lem (some false) r = (matches_lem r.conditions).1

module _ (group_version : Text → Text → Text) where
  -- With a client that has these items to list, the defined composite resources and the defined claims are
  -- a selection of them: all, without the option `ready`; those whose first condition of type Ready has
  -- the status True, where it is true; the others, where it is false.
  pub defined-IsSelection :
      (items : List Conditioned) (spec : XrdSpec) (names : Names) (version namespace : Option Text)
      (o : Options)
      → let s = record (spec) { claim_names = some names } in
        IsSelection Conditioned.id
          (wants_ready o.ready)
          items
          (defined_composite_resources group_version true
            (λ a k n. some items)
            s
            version
            (some o)).value
        × IsSelection Conditioned.id
            (wants_ready o.ready)
            items
            (defined_composite_resource_claims group_version true
              (λ a k n. some items)
              s
              version
              namespace
              (some o)).value
  unfolding defined_composite_resources defined_composite_resource_claims defined_claims
      defined_items options_of deprecation_patch deprecation_patch_claim
  defined-IsSelection items spec names version namespace o = (
    listed-wanted Conditioned.id _ _ _ items (ready_matches_lem o.ready),
    listed-wanted Conditioned.id _ _ _ items (ready_matches_lem o.ready),
  )

named : (n : Text) → (n == n) ≡ true
named n = (text_beq_iff n n).1 refl

passes : {e b : Bool} → e ≡ (b || e) → b ≡ true → e ≡ true
passes h p = ground (arith, h, p)

-- Of the name that is picked: it is a referenceable version's; or none is referenceable, and it is a served
-- version's; or none is referenceable or served, and it is empty.
abbrev pub IsPicked : List XrdVersion → Text → Type 0
IsPicked vs n =
    (exists_in (λ v. v.referenceable && (v.name == n)) vs ≡ true)
    ⊎ ((exists_in XrdVersion.referenceable vs ≡ false)
        × (exists_in (λ v. v.served && (v.name == n)) vs ≡ true))
    ⊎ ((exists_in XrdVersion.referenceable vs ≡ false)
        × (exists_in XrdVersion.served vs ≡ false)
        × (n ≡ []))

name_of-IsPicked :
    (vs : List XrdVersion) (v w : Option XrdVersion)
    → IsOneOf XrdVersion.referenceable vs v
    → IsOneOf XrdVersion.served vs w
    → IsPicked vs (name_of v w)
unfolding name_of
name_of-IsPicked vs (some v) w h k = inl (passes (h.1 (λ x. x.name == v.name)) (named v.name))
name_of-IsPicked vs none (some w) h k =
    inr (inl (h, passes (k.1 (λ x. x.name == w.name)) (named w.name)))
name_of-IsPicked vs none none h k = inr (inr (h, k, refl))

-- The version that `pickXRDVersion` picks: a referenceable one, a served one where none is referenceable,
-- and the empty name only where none is referenceable or served.
pick_xrd_version-IsPicked : (vs : List XrdVersion) → IsPicked vs (pick_xrd_version vs)
unfolding pick_xrd_version
pick_xrd_version-IsPicked vs =
    name_of-IsPicked vs _ _ (first-IsOneOf XrdVersion.referenceable vs)
      (first-IsOneOf XrdVersion.served vs)
