-- ===== src/Model/Package.antt =====
-- internal/graph/model/package.go: providers, configurations, without their metadata and the object
-- itself.
pub mod Statuses
pub mod Revisions
use xgql.Prelude.{
  ℕ, zero, suc, Bool, true, false, ◌&&◌, Option, none, some, List, [], ◌∷◌, map, Text, lit, text_eq,
  ◌==◌, if◌then◌else◌,
}
use xgql.Model.Id.{ReferenceId}
use xgql.Model.Meta.{RawCondition, Condition, text_ptr, get_conditions}

-- An int64.
pub data ℤ : Type 0 where
  pos negsuc : ℕ → ℤ

-- getIntPtr
unfoldable pub get_int_ptr : Option ℤ → Option ℤ
get_int_ptr none = none
get_int_ptr (some (pos zero)) = none
get_int_ptr (some (pos (suc n))) = some (pos (suc n))
get_int_ptr (some (negsuc n)) = some (negsuc n)

pub data Activation : Type 0 where
  manual automatic : Activation

-- GetRevisionActivationPolicy
unfoldable pub get_revision_activation_policy : Option Text → Option Activation
get_revision_activation_policy none = none
get_revision_activation_policy (some p) =
    if p == lit "Manual"
    then some Activation.manual
    else if p == lit "Automatic"
    then some Activation.automatic
    else none

pub data PullPolicy : Type 0 where
  always never if_not_present : PullPolicy

-- GetPackagePullPolicy
unfoldable pub get_package_pull_policy : Option Text → Option PullPolicy
get_package_pull_policy none = none
get_package_pull_policy (some p) =
    if p == lit "Always"
    then some PullPolicy.always
    else if p == lit "Never"
    then some PullPolicy.never
    else if p == lit "IfNotPresent"
    then some PullPolicy.if_not_present
    else none

-- A provider or a configuration in Kubernetes.
pub record RawPackage : Type 0 where
  pub api_version : Text
  pub kind : Text
  pub name : Text
  pub package_name : Text
  pub revision_activation_policy : Option Text
  pub revision_history_limit : Option ℤ
  pub package_pull_policy : Option Text
  pub ignore_crossplane_constraints : Option Bool
  pub skip_dependency_resolution : Option Bool
  pub conditions : Option (List RawCondition)
  pub current_revision : Text
  pub current_identifier : Text

pub record PackageSpec : Type 0 where
  pub package_name : Text
  pub revision_activation_policy : Option Activation
  pub revision_history_limit : Option ℤ
  pub package_pull_policy : Option PullPolicy
  pub ignore_crossplane_constraints : Option Bool
  pub skip_dependency_resolution : Option Bool

-- ProviderStatus and ConfigurationStatus
pub record PackageStatus : Type 0 where
  pub conditions : Option (List Condition)
  pub current_revision : Option Text
  pub current_identifier : Option Text

-- Provider and Configuration
pub record Package : Type 0 where
  pub id : ReferenceId
  pub spec : PackageSpec
  pub status : Option PackageStatus

unfoldable pub is_nil : {A : Type 0} → Option A → Bool
is_nil none = true
is_nil (some a) = false

-- A status that equals the empty one is nil.
unfoldable pub shown : Bool → PackageStatus → Option PackageStatus
shown true s = none
shown false s = some s

unfoldable pub is_blank : PackageStatus → Bool
unfolding is_nil
is_blank s = is_nil s.conditions && (is_nil s.current_revision && is_nil s.current_identifier)

-- GetProviderStatus and GetConfigurationStatus
unfoldable pub get_package_status : RawPackage → Option PackageStatus
unfolding shown is_blank
get_package_status p =
    let out : PackageStatus = record {
      conditions = get_conditions p.conditions;
      current_revision = text_ptr p.current_revision;
      current_identifier = text_ptr p.current_identifier;
    } in
    shown (is_blank out) out

-- GetProvider and GetConfiguration
unfoldable pub get_package : RawPackage → Package
unfolding get_package_status get_int_ptr get_revision_activation_policy get_package_pull_policy
get_package p = record {
  id = record { api_version = p.api_version; kind = p.kind; namespace = []; name = p.name };
  spec = record {
    package_name = p.package_name;
    revision_activation_policy = get_revision_activation_policy p.revision_activation_policy;
    revision_history_limit = get_int_ptr p.revision_history_limit;
    package_pull_policy = get_package_pull_policy p.package_pull_policy;
    ignore_crossplane_constraints = p.ignore_crossplane_constraints;
    skip_dependency_resolution = p.skip_dependency_resolution;
  };
  status = get_package_status p;
}
