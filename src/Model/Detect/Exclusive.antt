-- ===== src/Model/Detect/Exclusive.antt =====
-- The tests of internal/unstructured against each other, and the order in which
-- internal/graph/model/common.go makes them.
use xgql.Prelude.{
  ◌≡◌, ◌≢◌, refl, inl, inr, true, false, List, [], ◌∷◌, Text, lit, text_eq, text_beq_iff, ◌==◌,
  is_empty, arith, Bool-cases, All,
}
use xgql.Kube.{Gvk, gvk_eq, gvk_beq_iff}
use xgql.Model.Detect.{
  Unstructured, is_provider_config, is_composite, is_claim, is_managed, Kind, pkg, ext, crd, core,
  cases, kind_of_gvk, kind_of,
}

-- What the model's kinds promise of a resource.
abbrev pub Fits : Unstructured → Kind → Type 0
Fits u Kind.provider_config = (u.namespace ≡ []) × (u.gvk.kind ≡ lit "ProviderConfig")
Fits u Kind.composite = (u.namespace ≡ []) × (is_composite u ≡ true)
Fits u Kind.claim = (u.namespace ≢ []) × (is_claim u ≡ true)
Fits u Kind.managed =
    (u.namespace ≡ []) × (u.provider_config_ref_name ≡ true) × (is_composite u ≡ false)
Fits u Kind.provider = u.gvk ≡ pkg (lit "Provider")
Fits u Kind.provider_revision = u.gvk ≡ pkg (lit "ProviderRevision")
Fits u Kind.configuration = u.gvk ≡ pkg (lit "Configuration")
Fits u Kind.configuration_revision = u.gvk ≡ pkg (lit "ConfigurationRevision")
Fits u Kind.composite_resource_definition = u.gvk ≡ ext (lit "CompositeResourceDefinition")
Fits u Kind.composition = u.gvk ≡ ext (lit "Composition")
Fits u Kind.custom_resource_definition = u.gvk ≡ crd
Fits u Kind.secret = u.gvk ≡ core (lit "Secret")
Fits u Kind.config_map = u.gvk ≡ core (lit "ConfigMap")
Fits u Kind.generic = (is_composite u ≡ false) × (is_claim u ≡ false) × (is_managed u ≡ false)

is_empty_iff : (s : Text) → (is_empty s ≡ true → s ≡ []) × (is_empty s ≡ false → s ≢ [])
is_empty_iff [] = (λ h. refl, λ h. ground arith)
is_empty_iff (x ∷ s) = (λ h. ground arith, λ h. ground arith)

provider_config-Fits :
    (u : Unstructured) → is_provider_config u ≡ true → Fits u Kind.provider_config
unfolding is_provider_config
provider_config-Fits u h =
    ground (arith, h, (is_empty_iff u.namespace).0, text_beq_iff u.gvk.kind (lit "ProviderConfig"))

composite_namespaced : (u : Unstructured) → is_empty u.namespace ≡ false → is_composite u ≢ true
unfolding is_composite
composite_namespaced u p h = ground (arith, p, h)

claim_cluster : (u : Unstructured) → is_empty u.namespace ≡ true → is_claim u ≢ true
unfolding is_claim
claim_cluster u p h = ground (arith, p, h)

composite-Fits : (u : Unstructured) → is_composite u ≡ true → Fits u Kind.composite
composite-Fits u h = elim (Bool-cases (is_empty u.namespace)) [
  | inl p ↦ ((is_empty_iff u.namespace).0 p, h)
  | inr p ↦ absurd (composite_namespaced u p h)
]

claim-Fits : (u : Unstructured) → is_claim u ≡ true → Fits u Kind.claim
claim-Fits u h = elim (Bool-cases (is_empty u.namespace)) [
  | inl p ↦ absurd (claim_cluster u p h)
  | inr p ↦ ((is_empty_iff u.namespace).1 p, h)
]

managed-Fits :
    (u : Unstructured) → is_managed u ≡ true → is_composite u ≡ false → Fits u Kind.managed
unfolding is_managed
managed-Fits u h c = elim (Bool-cases (is_empty u.namespace)) [
  | inl p ↦ ((is_empty_iff u.namespace).0 p, ground (arith, p, h), c)
  | inr p ↦ absurd (ground (arith, p, h))
]

-- A provider config is cluster scoped, and a resource without a namespace is no claim, one with a
-- namespace neither composite nor managed.
scopes :
    (u : Unstructured)
    → ((is_claim u ≡ true)
        → (is_composite u ≡ false) × (is_managed u ≡ false) × (is_provider_config u ≡ false))
unfolding is_claim is_composite is_managed is_provider_config
scopes u h = elim (Bool-cases (is_empty u.namespace)) [
  | inl p ↦ ground (arith, p, h)
  | inr p ↦ ground (arith, p, h)
]

kind_of_gvk-Fits :
    (u : Unstructured) (cs : List (Gvk × Kind))
    → All (λ c. u.gvk ≡ c.0 → Fits u c.1) cs
    → Fits u Kind.generic
    → Fits u (kind_of_gvk cs u.gvk)
unfolding kind_of_gvk
kind_of_gvk-Fits u [] a h = h
kind_of_gvk-Fits u ((g, k) ∷ cs) a h = elim (Bool-cases (u.gvk == g)) [
  | inl p ↦ rw p (a.0 ((gvk_beq_iff u.gvk g).0 p))
  | inr p ↦ rw p (kind_of_gvk-Fits u cs a.1 h)
]

-- Whatever a resource is modelled as, it is what the name says: a provider config has the kind and no
-- namespace, a claim has a namespace and a claim's field, a composite has none and a composite's field, a
-- managed resource names a provider config and is no composite, each converted type has exactly its own
-- group, version and kind, and a generic resource passes none of the tests.
pub kind_of-Fits : (u : Unstructured) → Fits u (kind_of u)
unfolding kind_of
kind_of-Fits u = elim (Bool-cases (is_provider_config u)) [
  | inl p ↦ rw p (provider_config-Fits u p)
  | inr p ↦ elim (Bool-cases (is_composite u)) [
    | inl q ↦ rw (p, q) (composite-Fits u q)
    | inr q ↦ elim (Bool-cases (is_claim u)) [
      | inl r ↦ rw (p, q, r) (claim-Fits u r)
      | inr r ↦ elim (Bool-cases (is_managed u)) [
        | inl s ↦ rw (p, q, r, s) (managed-Fits u s q)
        | inr s ↦
            rw (p, q, r, s)
              (kind_of_gvk-Fits u cases
                (
                  λ e. e,
                  (
                    λ e. e,
                    (λ e. e, (λ e. e, (λ e. e, (λ e. e, (λ e. e, (λ e. e, (λ e. e, tt))))))),
                  ),
                )
                (q, r, s))
      ]
    ]
  ]
]

-- A claim is never a composite, a managed resource or a provider config, so that it is modelled as a
-- claim wherever its test stands in the order.
kind_of-claim :
    (u : Unstructured)
    → is_claim u ≡ true
    → (kind_of u ≡ Kind.claim)
      × (is_composite u ≡ false)
      × (is_managed u ≡ false)
      × (is_provider_config u ≡ false)
unfolding kind_of
kind_of-claim u h = let (c, m, p) = scopes u h in (ground (arith, h, c, p), c, m, p)
