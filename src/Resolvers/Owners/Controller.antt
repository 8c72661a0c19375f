-- ===== src/Resolvers/Owners/Controller.antt =====
-- The controller of an object is one of its owners.
use xgql.Prelude.{
  ◌≡◌, refl, Bool, true, false, ◌&&◌, ◌||◌, Option, none, some, List, [], ◌∷◌, ◌++◌, Text,
  exists_in, arith, Bool-cases, inl, inr,
}
use xgql.Resolvers.Objects.{Error, Resource, Server}
use xgql.Resolvers.Connections.{OwnerReference, is_set, first, collect}
use xgql.Resolvers.Owners.{
  Owner, read, owner_of, answered, owners, controlled, controller_at, controller,
}

-- A resource is the controller among the owners: no test fails for all owners that are controllers and does
-- not fail for it.
abbrev pub IsAmong : Option Resource → List Owner → Type 0
IsAmong none os = Unit
IsAmong (some r) os =
    (p : Resource → Bool)
    → exists_in (λ o. is_set o.controller && p o.resource) os
      ≡ (p r || exists_in (λ o. is_set o.controller && p o.resource) os)

exists_in-append :
    {A : Type 0} (p : A → Bool) (xs ys : List A)
    → exists_in p (xs ++ ys) ≡ (exists_in p xs || exists_in p ys)
unfolding exists_in
exists_in-append p [] ys = refl
exists_in-append p (x ∷ xs) ys = ground (arith, exists_in-append p xs ys)

module _ (srv : Server) (namespace : Option Text) where
  abbrev all_of : List OwnerReference → List Owner
  all_of refs = (collect (λ ref. owner_of srv ref (read srv namespace ref)) refs).0

  IsAmong-later :
      (r : Option Resource) (os others : List Owner) → IsAmong r others → IsAmong r (os ++ others)
  IsAmong-later none os others h = tt
  IsAmong-later (some r) os others h = λ p.
      ground (arith, h p, exists_in-append (λ o. is_set o.controller && p o.resource) os others)

  IsAmong-here :
      (ref : OwnerReference) (got : Option Resource × List Error) (others : List Owner)
      → is_set ref.controller ≡ true
      → IsAmong got.0 ((owner_of srv ref got).0 ++ others)
  unfolding owner_of exists_in
  IsAmong-here ref (none, es) others h = tt
  IsAmong-here ref (some r, es) others h = λ p. ground (arith, h)

  controlled-IsAmong :
      (refs : List OwnerReference)
      → IsAmong
          (controlled srv namespace (first (λ ref. is_set ref.controller) refs)).value
          (all_of refs)
  unfolding controlled first collect
  controlled-IsAmong [] = tt
  controlled-IsAmong (ref ∷ refs) = elim (Bool-cases (is_set ref.controller)) [
    | inl q ↦ rw q (IsAmong-here ref (read srv namespace ref) (all_of refs) q)
    | inr q ↦ rw q (
        IsAmong-later _ (owner_of srv ref (read srv namespace ref)).0 (all_of refs)
          (controlled-IsAmong refs))
  ]

  at-IsAmong :
      (b : Bool) (refs : List OwnerReference)
      → IsAmong
          (controller_at srv b namespace refs).value
          (answered srv b
            (collect (λ ref. owner_of srv ref (read srv namespace ref)) refs)).value.nodes
  unfolding controller_at answered
  at-IsAmong false refs = tt
  at-IsAmong true refs = controlled-IsAmong refs

  -- If `Controller` answers with a resource, it is the resource of one of the nodes of `Owners`, and of
  -- one that is marked as the controller.
  controller-IsAmong :
      (refs : List OwnerReference)
      → IsAmong (controller srv namespace refs).value (owners srv namespace refs).value.nodes
  unfolding controller owners
  controller-IsAmong refs = at-IsAmong srv.client refs
