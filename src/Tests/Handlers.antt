-- ===== src/Tests/Handlers.antt =====
-- The handlers of internal/graph/resolvers at concrete inputs.
use xgql.Prelude.{
  ◌≡◌, refl, true, false, ◌&&◌, ◌||◌, not, Option, none, some, List, [], ◌∷◌, ◌++◌, Text, lit,
  text_eq, exists_in, arith, text_beq, text_ord,
}
use xgql.Kube.{gvk_beq}
use xgql.Model.Id.{ReferenceId}
use xgql.Model.Detect.{
  pkg, get_kubernetes_resource, is_converted, kind_of, is_provider_config, is_composite, is_claim,
  is_managed, kind_of_gvk,
}
use xgql.Resolvers.Objects.{model, Object, found, Server}
use xgql.Resolvers.Connections.{OwnerReference, is_set}
use xgql.Resolvers.Connections.First.{IsOneOf}
use xgql.Resolvers.Connections.Selection.{IsSelection}
use xgql.Resolvers.Queries.{
  Revision, Owned, revision_api_version, revision_kind, provider_revisions, configuration_revisions,
  composite_resource_definitions, compositions, custom_resource_definitions,
}
use xgql.Resolvers.Queries.Selected.{
  wants, is_dangling, Selects, revision_named, queries-IsSelection,
}
use xgql.Resolvers.Packages
use xgql.Resolvers.Packages.Active.{active-revisions}
use xgql.Resolvers.Definitions.{
  Status, Conditioned, XrdSpec, Names, Options, defined_composite_resources,
  defined_composite_resource_claims,
}
use xgql.Resolvers.Definitions.Ready.{wants_ready, defined-IsSelection}
use xgql.Resolvers.Defined.{panics, answer}
use xgql.Resolvers.Defined.Nodes.{is_unknown, answer-panics}
use xgql.Resolvers.References.{Crd}

abbrev named : Text → ReferenceId
named name = record { api_version = lit "v1"; kind = lit "Thing"; namespace = []; name = name }

abbrev owned_by : Text → Text → OwnerReference
owned_by kind name = record {
  api_version = revision_api_version;
  kind = kind;
  name = name;
  uid = lit "7";
  controller = some true;
}

abbrev revisions : List Revision
revisions =
    record {
      id = named (lit "b");
      owners = owned_by revision_kind (lit "p") ∷ [];
      is_active = true;
    }
    ∷ record { id = named (lit "a"); owners = []; is_active = true }
    ∷ record {
      id = named (lit "a");
      owners = owned_by revision_kind (lit "p") ∷ [];
      is_active = false;
    }
    ∷ []

abbrev owned : List Owned
owned =
    record { id = named (lit "y"); owners = owned_by revision_kind (lit "p") ∷ [] }
    ∷ record { id = named (lit "x"); owners = [] }
    ∷ []

abbrev owner : Option ReferenceId
owner = some (revision_named (lit "p"))

queries-IsSelection_example :
    Selects Revision.id
      (λ r. wants owner r.owners && (not (is_set (some true)) || r.is_active))
      revisions
      (provider_revisions true (some revisions) owner (some true))
    × Selects Revision.id
        (λ r. wants owner r.owners && (not (is_set (some true)) || r.is_active))
        revisions
        (configuration_revisions true (some revisions) owner (some true))
    × Selects Owned.id
        (λ o. wants owner o.owners && (not (is_set (some true)) || is_dangling o.owners))
        owned
        (composite_resource_definitions true (some owned) owner (some true))
    × Selects Owned.id
        (λ o. wants owner o.owners && (not (is_set (some true)) || is_dangling o.owners))
        owned
        (compositions true (some owned) owner (some true))
    × Selects Owned.id
        (λ o. wants owner o.owners)
        owned
        (custom_resource_definitions true (some owned) owner)
queries-IsSelection_example = queries-IsSelection revisions owned owner (some true)

abbrev head_of : List OwnerReference → Option OwnerReference
head_of [] = none
head_of (r ∷ refs) = some r

active-revisions_example :
    IsOneOf Revision.is_active
      (Packages.configuration_revisions head_of true (some revisions) (lit "7")).value.nodes
      (Packages.configuration_active head_of true (some revisions) (lit "7")).value
    × IsOneOf Revision.is_active
        (Packages.provider_revisions head_of true (some revisions) (lit "7")).value.nodes
        (Packages.provider_active head_of true (some revisions) (lit "7")).value
active-revisions_example = active-revisions head_of (lit "7") revisions

abbrev conditioned : Text → Status → Conditioned
conditioned name status = record {
  id = named name;
  conditions =
      record { type = lit "Synced"; status = Status.holds }
      ∷ record { type = lit "Ready"; status = status }
      ∷ [];
}

abbrev conditioneds : List Conditioned
conditioneds =
    conditioned (lit "b") Status.holds
    ∷ conditioned (lit "a") Status.unknown
    ∷ conditioned (lit "c") Status.fails
    ∷ []

abbrev names : Names
names = record { plural = lit "things"; kind = lit "Thing"; list_kind = none }

abbrev spec : XrdSpec
spec = record {
  group = lit "example.org";
  versions = record { name = lit "v1"; referenceable = true; served = true } ∷ [];
  names = names;
  claim_names = some names;
}

abbrev unready : Options
unready = record { version = none; namespace = none; ready = some false }

abbrev slashed : Text → Text → Text
slashed group version = group ++ b'/' ∷ version

defined-IsSelection_example :
    IsSelection Conditioned.id
      (wants_ready (some false))
      conditioneds
      (defined_composite_resources slashed true
        (λ a k n. some conditioneds)
        spec
        none
        (some unready)).value
    × IsSelection Conditioned.id
        (wants_ready (some false))
        conditioneds
        (defined_composite_resource_claims slashed true
          (λ a k n. some conditioneds)
          spec
          none
          (some (lit "ns"))
          (some unready)).value
defined-IsSelection_example =
    defined-IsSelection slashed conditioneds spec names none (some (lit "ns")) unready

abbrev shaped : Text → Object
shaped kind = record {
  id = named kind;
  shape = record {
    gvk = pkg kind;
    namespace = [];
    composition_ref = false;
    composition_selector = false;
    resource_refs = false;
    resource_ref = false;
    write_connection_secret_to_ref = false;
    provider_config_ref_name = false;
  };
  resource_refs = [];
  resource_ref = none;
}

-- A server whose providers cannot be converted.
abbrev broken : Server
broken = record { client = true; get = λ id. found (shaped id.name); convert = λ u k. false }

abbrev mixed : List Object
mixed = shaped (lit "Lock") ∷ shaped (lit "Provider") ∷ []

one_unknown : exists_in (is_unknown broken) mixed ≡ true
unfolding exists_in model get_kubernetes_resource is_converted kind_of is_provider_config
    is_composite is_claim is_managed kind_of_gvk gvk_beq text_beq
one_unknown = refl

answer-panics_example : answer broken true (some mixed) ≡ panics
answer-panics_example = answer-panics broken mixed one_unknown (omega arith)

abbrev things : Crd
things = record {
  id = named (lit "things.example.org");
  group = lit "example.org";
  kind = lit "Thing";
}
