-- ===== src/Tests/Composites.antt =====
-- The models of internal/graph/model on JSON values.
use xgql.Prelude.{
  ℕ, ltb, ◌≡◌, refl, Bool, true, false, Option, none, some, List, [], ◌∷◌, Text, lit, text_eq,
  text_beq,
}
use xgql.Kube.{Gvk}
use xgql.Model.Meta.{RawCondition}
use xgql.Model.Detect.{Kind, kind_of}
use xgql.Model.Composites.{
  RawSelector, SecretReference, Named, Codecs, conditions_at, get_composite_resource,
}
use xgql.Model.Composites.Written.{types_of, get_composite_resource-set}
use xgql.Unstructured.{Codec}
use xgql.Unstructured.Status.{Conditioning}
use xgql.Unstructured.Composite.{proper_refs}
use xgql.Unstructured.Composite
use xgql.Unstructured.Names.{namespace}
use xgql.Unstructured.Detected.{observed}
use xgql.Tests.Json.{
  Json, get_at, network, network-Writable, null, leaf, labels, secret, conds, text, paved,
  text_codec, texts_codec, number_codec, inline_of, string,
}

abbrev read_selector : Json → RawSelector Unit × Bool
read_selector (leaf (labels d)) = (record { match_labels = d; match_expressions = tt }, true)
read_selector null = (record { match_labels = none; match_expressions = tt }, true)
read_selector _ = (record { match_labels = none; match_expressions = tt }, false)

abbrev selector_codec : Codec null (RawSelector Unit)
selector_codec = record {
  zero = record { match_labels = none; match_expressions = tt };
  encode = λ s. leaf (labels s.match_labels);
  decode = read_selector;
  decode_by_value = λ v. (record { match_labels = none; match_expressions = tt }, false);
  decode_by_value-fails = λ v. refl;
  decode-null = refl;
}

abbrev no_secret : SecretReference
no_secret = record { namespace = []; name = [] }

abbrev read_secret : Json → SecretReference × Bool
read_secret (leaf (secret r)) = (r, true)
read_secret null = (no_secret, true)
read_secret _ = (no_secret, false)

abbrev secret_codec : Codec null SecretReference
secret_codec = record {
  zero = no_secret;
  encode = λ s. leaf (secret s);
  decode = read_secret;
  decode_by_value = λ v. (no_secret, false);
  decode_by_value-fails = λ v. refl;
  decode-null = refl;
}

abbrev read_named : Json → Named × Bool
read_named (text s) = (record { name = s }, true)
read_named null = (record { name = [] }, true)
read_named _ = (record { name = [] }, false)

abbrev named_codec : Codec null Named
named_codec = record {
  zero = record { name = [] };
  encode = λ n. text n.name;
  decode = read_named;
  decode_by_value = λ v. (record { name = [] }, false);
  decode_by_value-fails = λ v. refl;
  decode-null = refl;
}

abbrev pub read_conds : Json → Option (List RawCondition) × Bool
read_conds (leaf (conds cs)) = (some cs, true)
read_conds null = (none, true)
read_conds _ = (none, false)

abbrev pub from_conds : Option (List RawCondition) → Json
from_conds none = null
from_conds (some cs) = leaf (conds cs)

pub read_conds-from_conds :
    (cs : Option (List RawCondition)) → read_conds (from_conds cs) ≡ (cs, true)
read_conds-from_conds none = refl
read_conds-from_conds (some cs) = refl

abbrev pub conds_codec : Codec null (Option (List RawCondition))
conds_codec = record {
  zero = none;
  encode = from_conds;
  decode = read_conds;
  decode_by_value = λ v. (none, false);
  decode_by_value-fails = λ v. refl;
  decode-null = refl;
}

abbrev no_condition : RawCondition
no_condition = record {
  type = [];
  status = [];
  last_transition_time = 0;
  reason = [];
  message = [];
}

abbrev conditioning : Conditioning RawCondition
conditioning = record {
  empty = no_condition;
  merge = λ old new. some new;
  find = λ ct cs. no_condition;
}

abbrev read_policy : Json → Text × Bool
read_policy null = (lit "Delete", true)
read_policy (text s) = (s, true)
read_policy _ = (lit "Delete", false)

-- A policy is read into a variable that holds the default.
abbrev policy_codec : Codec null Text
policy_codec = record {
  zero = lit "Delete";
  encode = text;
  decode = read_policy;
  decode_by_value = λ v. (lit "Delete", false);
  decode_by_value-fails = λ v. refl;
  decode-null = refl;
}

abbrev codecs : Codecs null paved.field Text Text Unit ℕ
codecs = record {
  selector = selector_codec;
  reference = text_codec;
  references = texts_codec;
  claim_reference = text_codec;
  secret = secret_codec;
  named = named_codec;
  time = number_codec;
  policy = policy_codec;
  users = number_codec;
  is_positive = (λ n. ltb 0 n);
  conditions = inline_of (lit "conditions") conds_codec;
  conditioning = conditioning;
}

abbrev pub no_meta : Json → Text
no_meta o = []

abbrev example_gvk : Json → Gvk
example_gvk o = record { group = lit "example.org"; version = lit "v1"; kind = lit "Network" }

abbrev refs : List Text
refs = lit "a" ∷ [] ∷ lit "b" ∷ []

abbrev written : Json
written = Composite.set_resource_references paved texts_codec string [] refs network

get_composite_resource-set_example :
    let before = get_composite_resource paved codecs no_meta network in
    let after = get_composite_resource paved codecs no_meta written in
    (kind_of (observed paved example_gvk (types_of codecs) written) ≡ Kind.composite)
    × (after.spec.resource_references ≡ proper_refs string [] refs)
    × (after.id ≡ before.id)
    × (after.spec.composition_reference ≡ before.spec.composition_reference)
    × (conditions_at paved codecs no_meta written ≡ conditions_at paved codecs no_meta network)
unfolding text_beq namespace get_at
get_composite_resource-set_example =
    get_composite_resource-set paved example_gvk codecs no_meta string [] refs network
      network-Writable refl refl refl
