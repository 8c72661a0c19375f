-- ===== src/Unstructured/Fields.antt =====
-- The fields of composite resources and claims of internal/unstructured.
use xgql.Prelude.{
  ◌≡◌, All, refl, ap, true, Option, some, List, [], ◌∷◌, Text, lit, text_eq, text_beq,
}
use xgql.Unstructured.{
  Paved, Codec, Survives, PointerSurvives, Segments, apart, spec, ok_only, decoded, value_into,
  pointer_at, value_at, put, put_value, put_pointer, put_text, pointer, text_pointer,
}
use xgql.Unstructured.RoundTrips.{
  CanSet, Writable, or_zero, get-put-apart, get-puts, pointer_at-get, text_at-get,
  value_at-put_value, pointer_at-put_pointer, text_at-put_text,
}
use xgql.Unstructured.Composite.{proper_refs}
use xgql.Unstructured.Composite
use xgql.Unstructured.Claim

-- The path of the time in the status.
abbrev pub published_time : Segments
published_time = lit "status" ∷ lit "connectionDetails" ∷ lit "lastPublishedTime" ∷ []

module _ {O V T : Type 0} (p : Paved O V) (c : Codec p.null T) (o : O) where
  -- A composite resource whose fields were set one after another has in each what was set there: the
  -- setters do not disturb one another. A nil pointer is read as an empty value, an update policy as it
  -- was set, nil included. The fields of the object's specification and the time in its status can be
  -- set, and the values of the pointers are decoded as they were encoded.
  pub get-set-Composite :
      (selector composition claim secret details revision revisions time : Option T)
      (policy : Option Text)
      → Writable p (lit "spec") o
      → CanSet p o published_time
      → All
          (PointerSurvives c)
          (selector ∷ composition ∷ claim ∷ secret ∷ details ∷ revision ∷ revisions ∷ time ∷ [])
      → let o' = Composite.set_connection_details_last_published_time p c time (
          Composite.set_composition_revision_selector p c revisions (
            Composite.set_composition_revision_reference p c revision (
              Composite.set_publish_connection_details_to p c details (
                Composite.set_write_connection_secret_to_reference p c secret (
                  Composite.set_claim_reference p c claim (
                    Composite.set_composition_reference p c composition (
                      Composite.set_composition_selector p c selector
                        (Composite.set_composition_update_policy p policy o)))))))) in
        (Composite.get_composition_selector p c o' ≡ some (or_zero c selector))
        × (Composite.get_composition_reference p c o' ≡ some (or_zero c composition))
        × (Composite.get_claim_reference p c o' ≡ some (or_zero c claim))
        × (Composite.get_write_connection_secret_to_reference p c o' ≡ some (or_zero c secret))
        × (Composite.get_publish_connection_details_to p c o' ≡ some (or_zero c details))
        × (Composite.get_composition_revision_reference p c o' ≡ some (or_zero c revision))
        × (Composite.get_composition_revision_selector p c o' ≡ some (or_zero c revisions))
        × (Composite.get_connection_details_last_published_time p c o' ≡ some (or_zero c time))
        × (Composite.get_composition_update_policy p o' ≡ policy)
  unfolding apart text_beq put_pointer put_text Composite.get_composition_selector
      Composite.set_composition_selector Composite.get_composition_reference
      Composite.set_composition_reference Composite.get_claim_reference
      Composite.set_claim_reference Composite.get_write_connection_secret_to_reference
      Composite.set_write_connection_secret_to_reference Composite.get_publish_connection_details_to
      Composite.set_publish_connection_details_to Composite.get_composition_revision_reference
      Composite.set_composition_revision_reference Composite.get_composition_revision_selector
      Composite.set_composition_revision_selector
      Composite.get_connection_details_last_published_time
      Composite.set_connection_details_last_published_time Composite.get_composition_update_policy
      Composite.set_composition_update_policy
  get-set-Composite selector composition claim secret details revision revisions time policy w wt
        e =
      let ws : List (Segments × V) =
        (published_time, pointer p c time)
        ∷ (spec (lit "compositionRevisionSelector"), pointer p c revisions)
        ∷ (spec (lit "compositionRevisionRef"), pointer p c revision)
        ∷ (spec (lit "publishConnectionDetailsTo"), pointer p c details)
        ∷ (spec (lit "writeConnectionSecretToRef"), pointer p c secret)
        ∷ (spec (lit "claimRef"), pointer p c claim)
        ∷ (spec (lit "compositionRef"), pointer p c composition)
        ∷ (spec (lit "compositionSelector"), pointer p c selector)
        ∷ (spec (lit "compositionUpdatePolicy"), text_pointer p policy)
        ∷ [] in
      let read =
        get-puts p ws o refl (wt, (w _, (w _, (w _, (w _, (w _, (w _, (w _, (w _, tt))))))))) in
      (
        pointer_at-get p c _ _ selector e.0 (read.1.1.1.1.1.1.1.0),
        pointer_at-get p c _ _ composition e.1.0 (read.1.1.1.1.1.1.0),
        pointer_at-get p c _ _ claim e.1.1.0 (read.1.1.1.1.1.0),
        pointer_at-get p c _ _ secret e.1.1.1.0 (read.1.1.1.1.0),
        pointer_at-get p c _ _ details e.1.1.1.1.0 (read.1.1.1.0),
        pointer_at-get p c _ _ revision e.1.1.1.1.1.0 (read.1.1.0),
        pointer_at-get p c _ _ revisions e.1.1.1.1.1.1.0 (read.1.0),
        pointer_at-get p c _ _ time e.1.1.1.1.1.1.1.0 (read.0),
        text_at-get p _ _ policy (read.1.1.1.1.1.1.1.1.0),
      )

  -- Every pointer that a setter of a claim writes, its getter reads, a nil pointer as an empty value; the
  -- two policies of a claim are read as they were set, nil included. The fields of the object's
  -- specification and the time in its status can be set, and the value of the pointer is decoded as it
  -- was encoded.
  get-set-Claim :
      (x : Option T) (s : Option Text)
      → Writable p (lit "spec") o
      → CanSet p o published_time
      → PointerSurvives c x
      → (Claim.get_composition_selector p c (Claim.set_composition_selector p c x o)
          ≡ some (or_zero c x))
        × (Claim.get_composition_reference p c (Claim.set_composition_reference p c x o)
            ≡ some (or_zero c x))
        × (Claim.get_resource_reference p c (Claim.set_resource_reference p c x o)
            ≡ some (or_zero c x))
        × (Claim.get_write_connection_secret_to_reference p c
              (Claim.set_write_connection_secret_to_reference p c x o)
            ≡ some (or_zero c x))
        × (Claim.get_publish_connection_details_to p c
              (Claim.set_publish_connection_details_to p c x o)
            ≡ some (or_zero c x))
        × (Claim.get_composition_revision_reference p c
              (Claim.set_composition_revision_reference p c x o)
            ≡ some (or_zero c x))
        × (Claim.get_composition_revision_selector p c
              (Claim.set_composition_revision_selector p c x o)
            ≡ some (or_zero c x))
        × (Claim.get_connection_details_last_published_time p c
              (Claim.set_connection_details_last_published_time p c x o)
            ≡ some (or_zero c x))
        × (Claim.get_composite_delete_policy p (Claim.set_composite_delete_policy p s o) ≡ s)
        × (Claim.get_composition_update_policy p (Claim.set_composition_update_policy p s o) ≡ s)
  unfolding Claim.get_composition_selector Claim.set_composition_selector
      Claim.get_composition_reference Claim.set_composition_reference Claim.get_resource_reference
      Claim.set_resource_reference Claim.get_write_connection_secret_to_reference
      Claim.set_write_connection_secret_to_reference Claim.get_publish_connection_details_to
      Claim.set_publish_connection_details_to Claim.get_composition_revision_reference
      Claim.set_composition_revision_reference Claim.get_composition_revision_selector
      Claim.set_composition_revision_selector Claim.get_connection_details_last_published_time
      Claim.set_connection_details_last_published_time Claim.get_composite_delete_policy
      Claim.set_composite_delete_policy Claim.get_composition_update_policy
      Claim.set_composition_update_policy
  get-set-Claim x s w wp e =
      let r : (f : Text)
          → pointer_at p c (spec f) (put_pointer p c (spec f) x o) ≡ some (or_zero c x) =
        λ f. pointer_at-put_pointer p c (spec f) o (w f) x e in
      (
        r _,
        r _,
        r _,
        r _,
        r _,
        r _,
        r _,
        pointer_at-put_pointer p c published_time o wp x e,
        text_at-put_text p _ o (w _) s,
        text_at-put_text p _ o (w _) s,
      )

-- A composite resource whose references were set has those of them that are not empty, in their order,
-- and every other field that a getter reads is as it was. The fields of the
-- object's specification can be set, and the references are decoded as they were encoded.
pub get-set_resource_references :
    {O V T R : Type 0} (p : Paved O V) (c : Codec p.null T) (r : Codec p.null (List R))
    (string : R → Text) (empty : R) (refs : List R) (o : O)
    → Writable p (lit "spec") o
    → Survives r (proper_refs string empty refs)
    → (Composite.get_resource_references p r
          (Composite.set_resource_references p r string empty refs o)
        ≡ proper_refs string empty refs)
      × (Composite.get_environment_config_references p r
            (Composite.set_resource_references p r string empty refs o)
          ≡ Composite.get_environment_config_references p r o)
      × (Composite.get_composition_selector p c
            (Composite.set_resource_references p r string empty refs o)
          ≡ Composite.get_composition_selector p c o)
      × (Composite.get_composition_reference p c
            (Composite.set_resource_references p r string empty refs o)
          ≡ Composite.get_composition_reference p c o)
      × (Composite.get_claim_reference p c
            (Composite.set_resource_references p r string empty refs o)
          ≡ Composite.get_claim_reference p c o)
      × (Composite.get_write_connection_secret_to_reference p c
            (Composite.set_resource_references p r string empty refs o)
          ≡ Composite.get_write_connection_secret_to_reference p c o)
      × (Composite.get_publish_connection_details_to p c
            (Composite.set_resource_references p r string empty refs o)
          ≡ Composite.get_publish_connection_details_to p c o)
      × (Composite.get_composition_revision_reference p c
            (Composite.set_resource_references p r string empty refs o)
          ≡ Composite.get_composition_revision_reference p c o)
      × (Composite.get_composition_revision_selector p c
            (Composite.set_resource_references p r string empty refs o)
          ≡ Composite.get_composition_revision_selector p c o)
      × (Composite.get_connection_details_last_published_time p c
            (Composite.set_resource_references p r string empty refs o)
          ≡ Composite.get_connection_details_last_published_time p c o)
unfolding apart text_beq Composite.get_resource_references Composite.set_resource_references
    Composite.get_environment_config_references Composite.get_composition_selector
    Composite.get_composition_reference Composite.get_claim_reference
    Composite.get_write_connection_secret_to_reference Composite.get_publish_connection_details_to
    Composite.get_composition_revision_reference Composite.get_composition_revision_selector
    Composite.get_connection_details_last_published_time pointer_at value_at value_into put_value
get-set_resource_references p c r string empty refs o w e =
    let v = r.encode (proper_refs string empty refs) in
    let same : (q : Segments)
        → apart (spec (lit "resourceRefs")) q ≡ true
        → p.get (put p (spec (lit "resourceRefs")) v o) q ≡ p.get o q =
      λ q a. get-put-apart p (spec (lit "resourceRefs")) q v o a in
    let value : (q : Segments)
        → apart (spec (lit "resourceRefs")) q ≡ true
        → (decoded p r (p.get (put p (spec (lit "resourceRefs")) v o) q)).0
          ≡ (decoded p r (p.get o q)).0 =
      λ q a. ap (λ m. (decoded p r m).0) (same q a) in
    let s : (q : Segments)
        → apart (spec (lit "resourceRefs")) q ≡ true
        → ok_only (decoded p c (p.get (put p (spec (lit "resourceRefs")) v o) q))
          ≡ ok_only (decoded p c (p.get o q)) =
      λ q a. ap (λ m. ok_only (decoded p c m)) (same q a) in
    (
      value_at-put_value p r _ o (w (lit "resourceRefs")) (proper_refs string empty refs) e,
      value _ refl,
      s _ refl,
      s _ refl,
      s _ refl,
      s _ refl,
      s _ refl,
      s _ refl,
      s _ refl,
      s _ refl,
    )
