-- ===== src/Tests/Definitions.antt =====
-- Definitions of internal/graph/model on JSON values.
use xgql.Prelude.{
  ◌≡◌, refl, Bool, true, false, ◌||◌, ◌&&◌, not, Option, none, some, List, [], ◌∷◌, Text, lit,
  get_elem?,
}
use xgql.Model.Definitions.{
  RawNames, RawVersion, Version, RawCrdVersion, TypeReference, RawXrd, is_zero,
  get_composite_resource_definition,
}
use xgql.Model.Definitions.Crd.{CrdCodecs, get_custom_resource_definition}
use xgql.Model.Definitions.Kept.{
  raw_names_of, items, mapped, marshalled, has, get_composite_resource_definition_lem,
  get_custom_resource_definition-put_status,
}
use xgql.Unstructured.{Codec, put, status}
use xgql.Tests.Json.{Json, null, leaf, names, versions, text, paved}
use xgql.Tests.Composites.{conds_codec, no_meta}

abbrev no_names : RawNames
no_names = record {
  plural = [];
  singular = [];
  short_names = [];
  kind = [];
  list_kind = [];
  categories = [];
}

abbrev read_names : Json → RawNames × Bool
read_names (leaf (names n)) = (n, true)
read_names null = (no_names, true)
read_names _ = (no_names, false)

abbrev names_codec : Codec null RawNames
names_codec = record {
  zero = no_names;
  encode = λ n. leaf (names n);
  decode = read_names;
  decode_by_value = λ v. (no_names, false);
  decode_by_value-fails = λ v. refl;
  decode-null = refl;
}

abbrev read_versions : Json → Option (List (RawCrdVersion Text)) × Bool
read_versions (leaf (versions vs)) = (some vs, true)
read_versions null = (none, true)
read_versions _ = (none, false)

abbrev from_versions : Option (List (RawCrdVersion Text)) → Json
from_versions none = null
from_versions (some vs) = leaf (versions vs)

read_versions-from_versions :
    (vs : Option (List (RawCrdVersion Text))) → read_versions (from_versions vs) ≡ (vs, true)
read_versions-from_versions none = refl
read_versions-from_versions (some vs) = refl

abbrev versions_codec : Codec null (Option (List (RawCrdVersion Text)))
versions_codec = record {
  zero = none;
  encode = from_versions;
  decode = read_versions;
  decode_by_value = λ v. (none, false);
  decode_by_value-fails = λ v. refl;
  decode-null = refl;
}

abbrev crd_codecs : CrdCodecs null Text
crd_codecs = record { names = names_codec; versions = versions_codec; status = conds_codec }

abbrev marshal : Text → Option Text
marshal s = some s

get_custom_resource_definition-put_status_example :
    let before = get_custom_resource_definition paved crd_codecs marshal no_meta null in
    let after =
      get_custom_resource_definition paved crd_codecs marshal no_meta
        (put paved status (text (lit "Established")) null) in
    (after.id ≡ before.id) × (after.spec ≡ before.spec) × (after.status ≡ before.status)
get_custom_resource_definition-put_status_example =
    get_custom_resource_definition-put_status paved crd_codecs marshal no_meta
      (text (lit "Established")) null

abbrev no_type : TypeReference
no_type = record { api_version = []; kind = [] }

abbrev version : RawVersion Text
version = record { name = lit "v1"; served = true; referenceable = true; schema = some (lit "{}") }

abbrev xrd : RawXrd Text Text
xrd = record {
  api_version = lit "apiextensions.crossplane.io/v1";
  kind = lit "CompositeResourceDefinition";
  name = lit "networks.example.org";
  group = lit "example.org";
  names = no_names;
  claim_names = none;
  connection_secret_keys = lit "kubeconfig" ∷ [];
  versions = some (version ∷ []);
  default_composition_ref = none;
  enforced_composition_ref = none;
  conditions = none;
  controllers = record {
    composite_resource_type = no_type;
    composite_resource_claim_type = no_type;
  };
}

abbrev xrd_meta : RawXrd Text Text → Text
xrd_meta x = []

get_composite_resource_definition_lem_example :
    let out = get_composite_resource_definition marshal xrd_meta xrd in
    (raw_names_of out.spec.names ≡ some xrd.names)
    × (raw_names_of out.spec.claim_names ≡ xrd.claim_names)
    × (mapped Version.name (get_elem? (items out.spec.versions) 0)
        ≡ mapped RawVersion.name (get_elem? (items xrd.versions) 0))
    × (mapped Version.served (get_elem? (items out.spec.versions) 0)
        ≡ mapped RawVersion.served (get_elem? (items xrd.versions) 0))
    × (mapped Version.referenceable (get_elem? (items out.spec.versions) 0)
        ≡ mapped RawVersion.referenceable (get_elem? (items xrd.versions) 0))
    × (mapped Version.schema (get_elem? (items out.spec.versions) 0)
        ≡ mapped (λ v. marshalled marshal v.schema) (get_elem? (items xrd.versions) 0))
    × (has out.status ≡ (
        has xrd.conditions
        || not (
            is_zero xrd.controllers.composite_resource_type
            && is_zero xrd.controllers.composite_resource_claim_type)))
    × (out.spec.connection_secret_keys ≡ none)
get_composite_resource_definition_lem_example =
    get_composite_resource_definition_lem marshal xrd_meta xrd 0
