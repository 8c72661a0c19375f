-- ===== src/Model/Composites/Written.antt =====
-- An object that the setters of internal/unstructured wrote, as internal/graph/model models it.
use xgql.Prelude.{
  ◌≡◌, refl, ap, ◌∙◌, true, false, Option, none, some, List, [], Text, lit, text_eq, text_beq, ◌==◌,
  is_empty, arith,
}
use xgql.Kube.{Gvk}
use xgql.Model.Detect.{Unstructured, Kind, kind_of, is_provider_config, is_composite}
use xgql.Model.Composites.{
  RawSelector, Named, Codecs, delocalize, id_of, get_composite_resource,
  get_composite_resource_claim, conditions_at,
}
use xgql.Unstructured.{
  Paved, Survives, PointerSurvives, apart, spec, status, put, put_value, pointer, put_pointer,
}
use xgql.Unstructured.Status.{status_into, inlined}
use xgql.Unstructured.Status
use xgql.Unstructured.Names.{namespace, names-put}
use xgql.Unstructured.RoundTrips.{Writable, or_zero, get-put-apart, pointer_at-put_pointer}
use xgql.Unstructured.Composite.{proper_refs}
use xgql.Unstructured.Composite
use xgql.Unstructured.Claim
use xgql.Unstructured.Fields.{get-set_resource_references}
use xgql.Unstructured.Detected.{Types, observed, observed-set}

abbrev pub types_of :
    {V R K E U : Type 0} {n : V} {f : V → Text → Option V}
    → Codecs n f R K E U
    → Types n R (RawSelector E) Named
types_of c = record {
  reference = c.reference;
  selector = c.selector;
  references = c.references;
  secret = c.named;
}

-- What reads the status alone does not see the specification.
status_into-put :
    {O V T : Type 0} (p : Paved O V) (i : Status.Inline p.null p.field T) (field : Text) (v : V)
    (o : O)
    → status_into p i (put p (spec field) v o) ≡ status_into p i o
unfolding status_into apart text_beq
status_into-put p i field v o = ap (inlined p i) (get-put-apart p (spec field) status v o refl)

conditions_at-put :
    {O V R K E U M : Type 0} (p : Paved O V) (c : Codecs p.null p.field R K E U) (meta : O → M)
    (field : Text) (v : V) (o : O)
    → conditions_at p c meta (put p (spec field) v o) ≡ conditions_at p c meta o
unfolding conditions_at Status.get_conditions
conditions_at-put p c meta field v o =
    ap (Status.read_only p c.conditioning c.conditions) (status_into-put p c.conditions field v o)

id_of-put :
    {O V : Type 0} (p : Paved O V) (ns field : Text) (v : V) (o : O)
    → id_of p ns (put p (spec field) v o) ≡ id_of p ns o
unfolding id_of
id_of-put p ns field v o = ground (arith, names-put p field v o)

kind_of-composite :
    (u : Unstructured)
    → is_composite u ≡ true
    → (u.gvk.kind == lit "ProviderConfig") ≡ false
    → kind_of u ≡ Kind.composite
unfolding kind_of is_provider_config
kind_of-composite u h k = ground (arith, h, k)

-- An object of another kind than ProviderConfig and in no namespace, whose resource references are set,
-- is modelled as a composite resource with those of the references that are not empty; its id, its
-- composition and its conditions are those that it had. The fields of the
-- object's specification can be set, and what is set is decoded as it was encoded.
pub get_composite_resource-set :
    {O V R K E U M : Type 0} (p : Paved O V) (gvk_of : O → Gvk) (c : Codecs p.null p.field R K E U)
    (meta : O → M) (string : R → Text) (empty : R) (refs : List R) (o : O)
    → Writable p (lit "spec") o
    → Survives c.references (proper_refs string empty refs)
    → is_empty (namespace p o) ≡ true
    → let o' = Composite.set_resource_references p c.references string empty refs o in
      ((gvk_of o').kind == lit "ProviderConfig") ≡ false
      → let before = get_composite_resource p c meta o in
        let after = get_composite_resource p c meta o' in
        (kind_of (observed p gvk_of (types_of c) o') ≡ Kind.composite)
        × (after.spec.resource_references ≡ proper_refs string empty refs)
        × (after.id ≡ before.id)
        × (after.spec.composition_reference ≡ before.spec.composition_reference)
        × (conditions_at p c meta o' ≡ conditions_at p c meta o)
unfolding get_composite_resource observed Composite.set_resource_references put_value
get_composite_resource-set p gvk_of c meta string empty refs o w s n g =
    let seen = observed-set p gvk_of (types_of c) string empty refs none o w s tt in
    let fields = get-set_resource_references p c.reference c.references string empty refs o w s in
    (
      kind_of-composite _ (seen.0 ∙ n) g,
      fields.0,
      id_of-put p [] (lit "resourceRefs") (c.references.encode (proper_refs string empty refs)) o,
      fields.3,
      conditions_at-put p c meta (lit "resourceRefs")
          (c.references.encode (proper_refs string empty refs)) o,
    )

-- A claim's secret, which names no namespace, is modelled in the namespace of the claim, as its id is,
-- whatever the setter wrote, nil as the empty name. The fields of the
-- object's specification can be set, and what is set is decoded as it was encoded.
get_composite_resource_claim-set :
    {O V R K E U M : Type 0} (p : Paved O V) (c : Codecs p.null p.field R K E U) (meta : O → M)
    (x : Option Named) (o : O)
    → Writable p (lit "spec") o
    → PointerSurvives c.named x
    → let o' = Claim.set_write_connection_secret_to_reference p c.named x o in
      let after = get_composite_resource_claim p c meta o' in
      (after.spec.write_connection_secret_to_reference
        ≡ some (record { namespace = namespace p o; name = (or_zero c.named x).name }))
      × (after.id ≡ id_of p (namespace p o) o)
      × (conditions_at p c meta o' ≡ conditions_at p c meta o)
unfolding get_composite_resource_claim Claim.get_write_connection_secret_to_reference
    Claim.set_write_connection_secret_to_reference put_pointer delocalize
get_composite_resource_claim-set p c meta x o w s =
    let f = lit "writeConnectionSecretToRef" in
    let v = pointer p c.named x in
    let n = (names-put p f v o).2 in
    let secret = pointer_at-put_pointer p c.named (spec f) o (w f) x s in
    (
      ap (λ r. delocalize r (namespace p (put p (spec f) v o))) secret
          ∙ ap (delocalize (some (or_zero c.named x))) n,
      ap (λ ns. id_of p ns (put p (spec f) v o)) n ∙ id_of-put p (namespace p o) f v o,
      conditions_at-put p c meta f v o,
    )
