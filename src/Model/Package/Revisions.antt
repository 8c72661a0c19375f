-- ===== src/Model/Package/Revisions.antt =====
-- The revisions of packages in internal/graph/model/package.go.
use xgql.Prelude.{
  Bool, true, false, ◌&&◌, Option, none, some, List, [], Text, lit, text_eq, ◌==◌, if◌then◌else◌,
}
use xgql.Model.Id.{ReferenceId}
use xgql.Model.Meta.{RawCondition, Condition, get_conditions}
use xgql.Model.Package.{ℤ, PullPolicy, get_int_ptr, get_package_pull_policy, is_nil}

pub data DesiredState : Type 0 where
  active inactive unset : DesiredState

-- GetPackageRevisionDesiredState
unfoldable pub get_package_revision_desired_state : Text → DesiredState
get_package_revision_desired_state s =
    if s == lit "Active"
    then DesiredState.active
    else if s == lit "Inactive"
    then DesiredState.inactive
    else DesiredState.unset

-- A rule of permissions, copied as it is.
pub record PolicyRule : Type 0 where
  pub verbs : List Text
  pub api_groups : List Text
  pub resources : List Text
  pub resource_names : List Text
  pub non_resource_urls : List Text

-- The name of an object that a revision installed.
pub record TypedReference : Type 0 where
  pub api_version : Text
  pub kind : Text
  pub name : Text

-- A revision of a provider or a configuration in Kubernetes. A list may be nil.
pub record RawRevision : Type 0 where
  pub api_version : Text
  pub kind : Text
  pub name : Text
  pub desired_state : Text
  pub package_name : Text
  pub package_pull_policy : Option Text
  pub revision : ℤ
  pub ignore_crossplane_constraints : Option Bool
  pub skip_dependency_resolution : Option Bool
  pub conditions : Option (List RawCondition)
  pub object_refs : Option (List TypedReference)
  pub found_dependencies : ℤ
  pub installed_dependencies : ℤ
  pub invalid_dependencies : ℤ
  pub permission_requests : Option (List PolicyRule)

-- ProviderRevisionStatus and ConfigurationRevisionStatus
pub record RevisionStatus : Type 0 where
  pub conditions : Option (List Condition)
  pub object_refs : Option (List TypedReference)
  pub found_dependencies : Option ℤ
  pub installed_dependencies : Option ℤ
  pub invalid_dependencies : Option ℤ
  pub permission_requests : Option (List PolicyRule)

pub record RevisionSpec : Type 0 where
  pub desired_state : DesiredState
  pub package_name : Text
  pub package_pull_policy : Option PullPolicy
  pub revision : ℤ
  pub ignore_crossplane_constraints : Option Bool
  pub skip_dependency_resolution : Option Bool

-- ProviderRevision and ConfigurationRevision
pub record Revision : Type 0 where
  pub id : ReferenceId
  pub spec : RevisionSpec
  pub status : Option RevisionStatus

unfoldable pub is_blank_revision : RevisionStatus → Bool
unfolding is_nil
is_blank_revision s =
    is_nil s.conditions
    && (is_nil s.object_refs
        && (is_nil s.found_dependencies
            && (is_nil s.installed_dependencies
                && (is_nil s.invalid_dependencies && is_nil s.permission_requests))))

unfoldable pub shown_revision : Bool → RevisionStatus → Option RevisionStatus
shown_revision true s = none
shown_revision false s = some s

-- GetProviderRevisionStatus and GetConfigurationRevisionStatus; GetPolicyRules copies each rule.
unfoldable pub get_revision_status : RawRevision → Option RevisionStatus
unfolding shown_revision is_blank_revision get_int_ptr
get_revision_status r =
    let out : RevisionStatus = record {
      conditions = get_conditions r.conditions;
      object_refs = r.object_refs;
      found_dependencies = get_int_ptr (some r.found_dependencies);
      installed_dependencies = get_int_ptr (some r.installed_dependencies);
      invalid_dependencies = get_int_ptr (some r.invalid_dependencies);
      permission_requests = r.permission_requests;
    } in
    shown_revision (is_blank_revision out) out

-- GetProviderRevision and GetConfigurationRevision
unfoldable pub get_revision : RawRevision → Revision
unfolding get_revision_status get_package_revision_desired_state get_package_pull_policy
get_revision r = record {
  id = record { api_version = r.api_version; kind = r.kind; namespace = []; name = r.name };
  spec = record {
    desired_state = get_package_revision_desired_state r.desired_state;
    package_name = r.package_name;
    package_pull_policy = get_package_pull_policy r.package_pull_policy;
    revision = r.revision;
    ignore_crossplane_constraints = r.ignore_crossplane_constraints;
    skip_dependency_resolution = r.skip_dependency_resolution;
  };
  status = get_revision_status r;
}
