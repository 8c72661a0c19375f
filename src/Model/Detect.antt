-- ===== src/Model/Detect.antt =====
-- Which type a resource is modelled as: GetKubernetesResource of internal/graph/model/common.go with the
-- tests of internal/unstructured. What a field path reads is a parameter.
pub mod Exclusive
use xgql.Prelude.{
  Bool, true, false, ◌&&◌, not, Text, lit, text_eq, ◌==◌, is_empty, if◌then◌else◌, Option, none,
  some, List, [], ◌∷◌,
}
use xgql.Kube.{Gvk, gvk_eq}

-- An unstructured resource, with the results of the reads that the tests make: whether the value at a
-- path can be read into the type that the test names.
pub record Unstructured : Type 0 where
  pub gvk : Gvk
  pub namespace : Text
  pub composition_ref : Bool
  pub composition_selector : Bool
  pub resource_refs : Bool
  pub resource_ref : Bool
  pub write_connection_secret_to_ref : Bool
  pub provider_config_ref_name : Bool

unfoldable pub is_provider_config : Unstructured → Bool
is_provider_config u = is_empty u.namespace && u.gvk.kind == lit "ProviderConfig"

-- ProbablyComposite
unfoldable pub is_composite : Unstructured → Bool
is_composite u =
    if not (is_empty u.namespace)
    then false
    else if u.composition_ref
    then true
    else if u.composition_selector
    then true
    else u.resource_refs

-- ProbablyClaim
unfoldable pub is_claim : Unstructured → Bool
is_claim u =
    if is_empty u.namespace
    then false
    else if u.composition_ref
    then true
    else if u.composition_selector
    then true
    else if u.resource_ref
    then true
    else u.write_connection_secret_to_ref

-- ProbablyManaged
unfoldable pub is_managed : Unstructured → Bool
is_managed u = if not (is_empty u.namespace) then false else u.provider_config_ref_name

pub data Kind : Type 0 where
  provider_config composite claim managed : Kind
  provider provider_revision configuration configuration_revision : Kind
  composite_resource_definition composition : Kind
  custom_resource_definition secret config_map generic : Kind

abbrev pub pkg : Text → Gvk
pkg kind = record { group = lit "pkg.crossplane.io"; version = lit "v1"; kind = kind }

abbrev pub ext : Text → Gvk
ext kind = record { group = lit "apiextensions.crossplane.io"; version = lit "v1"; kind = kind }

abbrev pub crd : Gvk
crd = record {
  group = lit "apiextensions.k8s.io";
  version = lit "v1";
  kind = lit "CustomResourceDefinition";
}

abbrev pub core : Text → Gvk
core kind = record { group = []; version = lit "v1"; kind = kind }

-- The cases of the switch that compare the kind, in its order.
abbrev pub cases : List (Gvk × Kind)
cases =
    (pkg (lit "Provider"), Kind.provider)
    ∷ (pkg (lit "ProviderRevision"), Kind.provider_revision)
    ∷ (pkg (lit "Configuration"), Kind.configuration)
    ∷ (pkg (lit "ConfigurationRevision"), Kind.configuration_revision)
    ∷ (ext (lit "CompositeResourceDefinition"), Kind.composite_resource_definition)
    ∷ (ext (lit "Composition"), Kind.composition)
    ∷ (crd, Kind.custom_resource_definition)
    ∷ (core (lit "Secret"), Kind.secret)
    ∷ (core (lit "ConfigMap"), Kind.config_map)
    ∷ []

-- The first case that the kind equals, or the default.
unfoldable pub kind_of_gvk : List (Gvk × Kind) → Gvk → Kind
kind_of_gvk [] g = Kind.generic
kind_of_gvk ((h, k) ∷ cs) g = if g == h then k else kind_of_gvk cs g

-- The kinds whose resources are converted, which may fail.
unfoldable pub is_converted : Kind → Bool
is_converted Kind.provider_config = false
is_converted Kind.composite = false
is_converted Kind.claim = false
is_converted Kind.managed = false
is_converted Kind.generic = false
is_converted _ = true

unfoldable pub kind_of : Unstructured → Kind
kind_of u =
    if is_provider_config u
    then Kind.provider_config
    else if is_composite u
    then Kind.composite
    else if is_claim u
    then Kind.claim
    else if is_managed u
    then Kind.managed
    else kind_of_gvk cases u.gvk

-- GetKubernetesResource: the kind of the model, or `none` where the conversion fails.
unfoldable pub get_kubernetes_resource : (Unstructured → Kind → Bool) → Unstructured → Option Kind
get_kubernetes_resource convert u =
    if is_converted (kind_of u)
    then if convert u (kind_of u) then some (kind_of u) else none
    else some (kind_of u)
