-- ===== src/Model/Composites.antt =====
-- Composite resources, claims, managed resources, provider configs and generic resources as
-- internal/graph/model models them: composite.go, managed.go, providerconfig.go, and GetGenericResource
-- and GetLabelSelector of common.go. `meta` is GetObjectMeta.
pub mod Written
pub mod Statuses
use xgql.Prelude.{
  ◌≡◌, Bool, true, false, Option, none, some, List, [], ◌∷◌, Text, lit, text_eq, ◌==◌,
  if◌then◌else◌, ℕ,
}
use xgql.Model.Id.{ReferenceId}
use xgql.Model.Meta.{Data, RawCondition, Condition, get_conditions}
use xgql.Unstructured.{Paved, Codec, text_at}
use xgql.Unstructured.Status.{Inline, Conditioning}
use xgql.Unstructured.Status
use xgql.Unstructured.Names.{api_version, kind, namespace, name}
use xgql.Unstructured.Composite
use xgql.Unstructured.Claim
use xgql.Unstructured.Managed
use xgql.Unstructured.ProviderConfig

-- A label selector of Kubernetes, whose expressions are of some type, and of the model.
pub record RawSelector (E : Type 0) : Type 0 where
  pub match_labels : Data
  pub match_expressions : E

pub record SecretReference : Type 0 where
  pub namespace : Text
  pub name : Text

-- A LocalSecretReference, or a Reference.
pub record Named : Type 0 where
  pub name : Text

pub data DeletionPolicy : Type 0 where
  delete orphan : DeletionPolicy

-- How the types of the fields are decoded. `R` is an ObjectReference, `K` a claim's Reference, `E` the
-- expressions of a selector and `U` an integer.
pub record Codecs {V : Type 0} (null : V) (field : V → Text → Option V) (R K E U : Type 0)
    : Type 0 where
  pub selector : Codec null (RawSelector E)
  pub reference : Codec null R
  pub references : Codec null (List R)
  pub claim_reference : Codec null K
  pub secret : Codec null SecretReference
  pub named : Codec null Named
  pub time : Codec null ℕ
  pub policy : Codec null Text  -- its zero value is the default, `Delete`
  pub users : Codec null U
  pub is_positive : U → Bool
  pub conditions : Inline null field (Option (List RawCondition))
  pub conditioning : Conditioning RawCondition

-- GetLabelSelector: only the labels are modelled.
unfoldable pub get_label_selector : {E : Type 0} → Option (RawSelector E) → Option Data
get_label_selector none = none
get_label_selector (some s) = some s.match_labels

unfoldable pub delocalize : Option Named → Text → Option SecretReference
delocalize none namespace = none
delocalize (some ref) namespace = some (record { namespace = namespace; name = ref.name })

-- GetDeletionPolicy
unfoldable pub get_deletion_policy : Text → Option DeletionPolicy
get_deletion_policy p =
    if p == lit "Delete"
    then some DeletionPolicy.delete
    else if p == lit "Orphan"
    then some DeletionPolicy.orphan
    else none

-- GetProviderConfigReference
unfoldable pub get_provider_config_reference : Option Named → Option Text
get_provider_config_reference none = none
get_provider_config_reference (some r) = some r.name

-- CompositeResourceStatus and CompositeResourceClaimStatus: the conditions, and the time at which the
-- connection details were published.
pub record ResourceStatus : Type 0 where
  pub conditions : Option (List Condition)
  pub last_published_time : Option ℕ

pub record ProviderConfigStatus (U : Type 0) : Type 0 where
  pub conditions : Option (List Condition)
  pub users : Option U

-- `GetConditions(c)` when `len(c) > 0`
unfoldable pub proper_conditions : Option (List RawCondition) → Option (List Condition)
unfolding get_conditions
proper_conditions none = none
proper_conditions (some []) = none
proper_conditions (some (c ∷ cs)) = get_conditions (some (c ∷ cs))

-- The comparison with an empty status.
unfoldable pub proper_status : ResourceStatus → Option ResourceStatus
proper_status st = elim st.conditions [
  | none ↦ elim st.last_published_time [ none ↦ none | some t ↦ some st ]
  | some cs ↦ some st
]

-- The same for a provider config.
unfoldable pub proper_users :
    {U : Type 0} → ProviderConfigStatus U → Option (ProviderConfigStatus U)
proper_users st = elim st.conditions [
  | none ↦ elim st.users [ none ↦ none | some n ↦ some st ]
  | some cs ↦ some st
]

-- What every model has; `spec` and `status` are those of its type.
pub record Resource (M S T : Type 0) : Type 0 where
  pub id : ReferenceId
  pub api_version : Text
  pub kind : Text
  pub metadata : M
  pub spec : S
  pub status : T

pub record CompositeSpec (R K : Type 0) : Type 0 where
  pub composition_selector : Option Data
  pub composition_reference : Option R
  pub claim_reference : Option K
  pub resource_references : List R
  pub write_connection_secret_to_reference : Option SecretReference

pub record ClaimSpec (R : Type 0) : Type 0 where
  pub composition_selector : Option Data
  pub composition_reference : Option R
  pub resource_reference : Option R
  pub write_connection_secret_to_reference : Option SecretReference

pub record ManagedSpec : Type 0 where
  pub provider_config_ref : Option Text
  pub deletion_policy : Option DeletionPolicy
  pub write_connection_secret_to_reference : Option SecretReference

module _ {O V : Type 0} (p : Paved O V) where
  -- The id with the namespace, or without it.
  unfoldable pub id_of : Text → O → ReferenceId
  id_of ns o = record {
    api_version = api_version p o;
    kind = kind p o;
    namespace = ns;
    name = name p o;
  }

  unfoldable pub resource : {M S T : Type 0} → (O → M) → Text → S → T → O → Resource M S T
  unfolding id_of
  resource meta ns spec status o = record {
    id = id_of ns o;
    api_version = api_version p o;
    kind = kind p o;
    metadata = meta o;
    spec = spec;
    status = status;
  }

  -- GetGenericResource
  unfoldable pub get_generic_resource : {M : Type 0} → (O → M) → O → Resource M Unit Unit
  unfolding resource
  get_generic_resource meta o = resource meta (namespace p o) tt tt o

  module _ {R K E U M : Type 0} (c : Codecs p.null p.field R K E U) (meta : O → M) where
    -- GetConditions of the four types.
    unfoldable pub conditions_at : O → Option (List RawCondition)
    unfolding Status.get_conditions
    conditions_at o = Status.get_conditions p c.conditioning c.conditions o

    -- GetCompositeResourceStatus
    unfoldable pub get_composite_resource_status : O → Option ResourceStatus
    unfolding proper_conditions proper_status conditions_at
    get_composite_resource_status o = proper_status (record {
      conditions = proper_conditions (conditions_at o);
      last_published_time = Composite.get_connection_details_last_published_time p c.time o;
    })

    -- GetCompositeResource
    unfoldable pub get_composite_resource :
        O → Resource M (CompositeSpec R K) (Option ResourceStatus)
    unfolding resource get_label_selector get_composite_resource_status
    get_composite_resource o =
        let spec : CompositeSpec R K = record {
          composition_selector =
              get_label_selector (Composite.get_composition_selector p c.selector o);
          composition_reference = Composite.get_composition_reference p c.reference o;
          claim_reference = Composite.get_claim_reference p c.claim_reference o;
          resource_references = Composite.get_resource_references p c.references o;
          write_connection_secret_to_reference =
              Composite.get_write_connection_secret_to_reference p c.secret o;
        } in
        resource meta [] spec (get_composite_resource_status o) o

    -- GetCompositeResourceClaimStatus
    unfoldable pub get_composite_resource_claim_status : O → Option ResourceStatus
    unfolding proper_conditions proper_status conditions_at
    get_composite_resource_claim_status o = proper_status (record {
      conditions = proper_conditions (conditions_at o);
      last_published_time = Claim.get_connection_details_last_published_time p c.time o;
    })

    -- GetCompositeResourceClaim
    unfoldable pub get_composite_resource_claim :
        O → Resource M (ClaimSpec R) (Option ResourceStatus)
    unfolding resource get_label_selector delocalize get_composite_resource_claim_status
    get_composite_resource_claim o =
        let spec : ClaimSpec R = record {
          composition_selector = get_label_selector (Claim.get_composition_selector p c.selector o);
          composition_reference = Claim.get_composition_reference p c.reference o;
          resource_reference = Claim.get_resource_reference p c.reference o;
          write_connection_secret_to_reference =
              delocalize (Claim.get_write_connection_secret_to_reference p c.named o)
                (namespace p o);
        } in
        resource meta (namespace p o) spec (get_composite_resource_claim_status o) o

    -- GetManagedResourceStatus: its conditions.
    unfoldable pub get_managed_resource_status : O → Option (List Condition)
    unfolding proper_conditions conditions_at
    get_managed_resource_status o = proper_conditions (conditions_at o)

    -- GetManagedResource
    unfoldable pub get_managed_resource : O → Resource M ManagedSpec (Option (List Condition))
    unfolding resource get_provider_config_reference get_deletion_policy get_managed_resource_status
    get_managed_resource o =
        let spec : ManagedSpec = record {
          provider_config_ref =
              get_provider_config_reference (Managed.get_provider_config_reference p c.named o);
          deletion_policy = get_deletion_policy (Managed.get_deletion_policy p c.policy o);
          write_connection_secret_to_reference =
              Managed.get_write_connection_secret_to_reference p c.secret o;
        } in
        resource meta [] spec (get_managed_resource_status o) o

    -- GetProviderConfigStatus
    unfoldable pub get_provider_config_status : O → Option (ProviderConfigStatus U)
    unfolding proper_users get_conditions conditions_at
    get_provider_config_status o =
        let users = ProviderConfig.get_users p c.users o in
        proper_users (record {
          conditions = get_conditions (conditions_at o);
          users = if c.is_positive users then some users else none;
        })

    -- GetProviderConfig
    unfoldable pub get_provider_config : O → Resource M Unit (Option (ProviderConfigStatus U))
    unfolding resource get_provider_config_status
    get_provider_config o = resource meta [] tt (get_provider_config_status o) o
