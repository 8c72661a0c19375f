-- ===== src/Tests/Model.antt =====
-- Ids and kinds of internal/graph/model at concrete resources.
use xgql.Prelude.{◌≡◌, refl, true, false, some, [], lit, split_on}
use xgql.Model.Id.{ReferenceId, Coding, ok, string, of_parts, parse_reference_id, unmarshal_gql}
use xgql.Model.Id.RoundTrip.{Decodes, IsPlain, unmarshal_gql-string}
use xgql.Model.Detect.{Unstructured, kind_of}
use xgql.Model.Detect.Exclusive.{Fits, kind_of-Fits}

-- Codings that change nothing.
abbrev plain : Coding
plain = record {
  encode = λ s. s;
  decode = λ s. some s;
  compress = λ s. s;
  decompress = λ s. some s;
}

plain-Decodes : Decodes plain
plain-Decodes = record { base64 = λ s. refl; smaz = λ s. refl }

abbrev id : ReferenceId
id = record { api_version = lit "v1"; kind = lit "Pod"; namespace = []; name = lit "w" }

id-IsPlain : IsPlain id
id-IsPlain = record {
  api_version = (refl, (refl, tt));
  kind = (refl, (refl, (refl, tt)));
  namespace = tt;
  name = (refl, tt);
}

unmarshal_gql-string_example :
    (parse_reference_id plain (string plain id) ≡ ok id)
    × (unmarshal_gql plain (some (string plain id)) ≡ ok id)
unmarshal_gql-string_example = unmarshal_gql-string plain id plain-Decodes id-IsPlain

parsed : parse_reference_id plain (lit "v1|Pod||w") ≡ ok id
unfolding parse_reference_id split_on of_parts
parsed = refl

abbrev claim : Unstructured
claim = record {
  gvk = record { group = lit "example.org"; version = lit "v1"; kind = lit "Bucket" };
  namespace = lit "default";
  composition_ref = false;
  composition_selector = false;
  resource_refs = false;
  resource_ref = true;
  write_connection_secret_to_ref = false;
  provider_config_ref_name = true;
}

kind_of-Fits_example : Fits claim (kind_of claim)
kind_of-Fits_example = kind_of-Fits claim
