-- ===== src/Model/Id.antt =====
-- The ReferenceID of internal/graph/model/id.go and the order of internal/graph/model/sort.go. The
-- base64 and smaz codings are parameters.
pub mod RoundTrip
use xgql.Prelude.{
  Bool, true, false, Option, none, some, List, [], ◌∷◌, ◌++◌, Text, lit, text_ord, split_on,
  if◌then◌else◌,
}

pub record ReferenceId : Type 0 where
  pub api_version : Text
  pub kind : Text
  pub namespace : Text
  pub name : Text

pub data Error : Type 0 where
  decode decompress malformed not_a_string : Error
  parse : Error → Error

pub data Result : Type 0 where
  ok : ReferenceId → Result
  err : Error → Result

-- encoding/base64 without padding, and smaz with the table of `init`.
pub record Coding : Type 0 where
  pub encode : Text → Text
  pub decode : Text → Option Text
  pub compress : Text → Text
  pub decompress : Text → Option Text

-- The text that is compressed.
unfoldable pub text_of : ReferenceId → Text
text_of id = id.api_version ++ b'|' ∷ (id.kind ++ b'|' ∷ (id.namespace ++ b'|' ∷ id.name))

unfoldable pub of_parts : List Text → Result
of_parts (a ∷ k ∷ s ∷ n ∷ []) = ok (record { api_version = a; kind = k; namespace = s; name = n })
of_parts _ = err Error.malformed

module _ (co : Coding) where
  -- ReferenceID.String
  unfoldable pub string : ReferenceId → Text
  string id = co.encode (co.compress (text_of id))

  -- ParseReferenceID
  unfoldable pub parse_reference_id : Text → Result
  parse_reference_id id = elim (co.decode id) [
    | none ↦ err Error.decode
    | some s ↦ elim (co.decompress s) [
      | none ↦ err Error.decompress
      | some b ↦ of_parts (split_on b'|' b)
    ]
  ]

  unfoldable pub wrapped : Result → Result
  wrapped (ok id) = ok id
  wrapped (err e) = err (Error.parse e)

  -- UnmarshalGQL, of a value that may be a string.
  unfoldable pub unmarshal_gql : Option Text → Result
  unmarshal_gql none = err Error.not_a_string
  unmarshal_gql (some s) = wrapped (parse_reference_id s)

  -- MarshalGQL
  unfoldable pub marshal_gql : ReferenceId → Text
  marshal_gql id = b'"' ∷ (string id ++ b'"' ∷ [])

-- `join`
unfoldable pub join : ReferenceId → Text
join id = id.api_version ++ (id.kind ++ (id.namespace ++ id.name))

-- `Less` of the connections, on the ids of two of their nodes.
unfoldable pub less : ReferenceId → ReferenceId → Bool
less a b = text_ord.less (join a) (join b)
