-- ===== src/Unstructured/Detected.antt =====
-- What the tests of internal/unstructured read from an object: ProbablyComposite, ProbablyClaim,
-- ProbablyManaged and ProbablyProviderConfig after the setters of composite.go and claim.go.
use xgql.Prelude.{
  ◌≡◌, ap, ◌∙◌, Bool, true, false, not, Option, none, some, List, [], ◌∷◌, Text, lit, text_eq,
  is_empty, arith,
}
use xgql.Kube.{Gvk}
use xgql.Model.Detect.{Unstructured, is_composite, is_claim}
use xgql.Unstructured.{
  Paved, Codec, Survives, PointerSurvives, spec, decoded, value_into, text_at, put, put_value,
  pointer, put_pointer,
}
use xgql.Unstructured.Names.{namespace, names-put}
use xgql.Unstructured.Composite.{proper_refs}
use xgql.Unstructured.Composite
use xgql.Unstructured.Claim
use xgql.Unstructured.RoundTrips.{CanSet, Writable, get-put}

-- The types that the tests name.
pub record Types {V : Type 0} (null : V) (R S L : Type 0) : Type 0 where
  pub reference : Codec null R
  pub selector : Codec null S
  pub references : Codec null (List R)
  pub secret : Codec null L

module _ {O V R S L : Type 0} (p : Paved O V) (gvk_of : O → Gvk) (c : Types p.null R S L) where
  unfoldable pub can_read : {T : Type 0} → Codec p.null T → Text → O → Bool
  unfolding value_into
  can_read d name o = (value_into p d (spec name) o).1

  unfoldable pub is_some : Option Text → Bool
  is_some none = false
  is_some (some s) = true

  unfoldable pub observed : O → Unstructured
  unfolding can_read is_some
  observed o = record {
    gvk = gvk_of o;
    namespace = namespace p o;
    composition_ref = can_read c.reference (lit "compositionRef") o;
    composition_selector = can_read c.selector (lit "compositionSelector") o;
    resource_refs = can_read c.references (lit "resourceRefs") o;
    resource_ref = can_read c.reference (lit "resourceRef") o;
    write_connection_secret_to_ref = can_read c.secret (lit "writeConnectionSecretToRef") o;
    provider_config_ref_name =
        is_some (text_at p (lit "spec" ∷ lit "providerConfigRef" ∷ lit "name" ∷ []) o);
  }

  can_read-put :
      {T : Type 0} (d : Codec p.null T) (name : Text) (v : V) (o : O)
      → CanSet p o (spec name)
      → (d.decode v).1 ≡ true
      → can_read d name (put p (spec name) v o) ≡ true
  unfolding can_read value_into
  can_read-put d name v o w e = ap (λ m. (decoded p d m).1) (get-put p (spec name) v o w) ∙ e

  decode-pointer :
      (x : Option R)
      → PointerSurvives c.reference x
      → (c.reference.decode (pointer p c.reference x)).1 ≡ true
  unfolding pointer
  decode-pointer none s = ap (λ r. r.1) c.reference.decode-null
  decode-pointer (some r) s = ap (λ r. r.1) s

-- An object is probably a composite resource once its composition or its resource references are set,
-- and probably a claim once its composition or its resource is, to whatever value, nil and empty
-- included, when it is in no namespace, and when it is in one. The fields of
-- the object's specification can be set, and the values are decoded as they were encoded.
pub observed-set :
    {O V R S L : Type 0} (p : Paved O V) (gvk_of : O → Gvk) (c : Types p.null R S L)
    (string : R → Text) (empty : R) (refs : List R) (x : Option R) (o : O)
    → Writable p (lit "spec") o
    → Survives c.references (proper_refs string empty refs)
    → PointerSurvives c.reference x
    → let cluster_scoped = is_empty (namespace p o) in
      let see = observed p gvk_of c in
      (is_composite (see (Composite.set_resource_references p c.references string empty refs o))
        ≡ cluster_scoped)
      × (is_composite (see (Composite.set_composition_reference p c.reference x o))
          ≡ cluster_scoped)
      × (is_claim (see (Claim.set_resource_reference p c.reference x o)) ≡ not cluster_scoped)
      × (is_claim (see (Claim.set_composition_reference p c.reference x o)) ≡ not cluster_scoped)
unfolding observed is_composite is_claim Composite.set_resource_references
    Composite.set_composition_reference Claim.set_resource_reference Claim.set_composition_reference
    put_value put_pointer
observed-set p gvk_of c string empty refs x o w sr sx =
    let v = c.references.encode (proper_refs string empty refs) in
    let y = pointer p c.reference x in
    let r = can_read-put p gvk_of c c.reference in
    let d = decode-pointer p gvk_of c x sx in
    (
      ground (
        arith,
        (names-put p (lit "resourceRefs") v o).2,
        can_read-put p gvk_of c c.references (lit "resourceRefs") v o (w _) (ap (λ r. r.1) sr),
      ),
      ground
          (arith, (names-put p (lit "compositionRef") y o).2, r (lit "compositionRef") y o (w _) d),
      ground (arith, (names-put p (lit "resourceRef") y o).2, r (lit "resourceRef") y o (w _) d),
      ground
          (arith, (names-put p (lit "compositionRef") y o).2, r (lit "compositionRef") y o (w _) d),
    )
