-- ===== src/Model/Id/RoundTrip.antt =====
-- Printing and parsing the ids of internal/graph/model/id.go.
use xgql.Prelude.{
  ◌≡◌, refl, ◌∙◌, some, List, [], ◌∷◌, ◌++◌, Text, split_on, split_on_last, split_on-append,
  join_with, join_with-split_on, Avoids, arith, Avoids-split_on, All,
}
use xgql.Model.Id.{
  ReferenceId, ok, Coding, text_of, of_parts, string, parse_reference_id, wrapped, unmarshal_gql,
}

-- What the codings promise: to undo their own output.
pub record Decodes (co : Coding) : Type 0 where
  pub base64 : (s : Text) → co.decode (co.encode s) ≡ some s
  pub smaz : (s : Text) → co.decompress (co.compress s) ≡ some s

-- The parts before the last have no separator in them, and neither has the name.
pub record IsPlain (id : ReferenceId) : Type 0 where
  pub api_version : Avoids b'|' id.api_version
  pub kind : Avoids b'|' id.kind
  pub namespace : Avoids b'|' id.namespace
  pub name : Avoids b'|' id.name

split_on-text_of :
    (id : ReferenceId)
    → IsPlain id
    → split_on b'|' (text_of id) ≡ id.api_version ∷ id.kind ∷ id.namespace ∷ id.name ∷ []
unfolding text_of
split_on-text_of id p =
    rw
      (
        split_on-append b'|' id.api_version (id.kind ++ b'|' ∷ (id.namespace ++ b'|' ∷ id.name))
            p.api_version,
        split_on-append b'|' id.kind (id.namespace ++ b'|' ∷ id.name) p.kind,
        split_on-append b'|' id.namespace id.name p.namespace,
        split_on_last b'|' id.name p.name,
      )
      refl

-- An id without the separator in its parts is parsed back from its text, and a GraphQL value of that
-- text is the id.
pub unmarshal_gql-string :
    (co : Coding) (id : ReferenceId)
    → Decodes co
    → IsPlain id
    → (parse_reference_id co (string co id) ≡ ok id)
      × (unmarshal_gql co (some (string co id)) ≡ ok id)
unfolding unmarshal_gql parse_reference_id string of_parts wrapped
unmarshal_gql-string co id c p =
    ground (arith, c.base64 (co.compress (text_of id)), c.smaz (text_of id), split_on-text_of id p)

text_of-of_parts :
    (ps : List Text) (id : ReferenceId)
    → of_parts ps ≡ ok id
    → All (Avoids b'|') ps
    → (text_of id ≡ join_with b'|' ps) × IsPlain id
unfolding of_parts text_of join_with
text_of-of_parts [] id h a = absurd (ground arith)
text_of-of_parts (x ∷ []) id h a = absurd (ground arith)
text_of-of_parts (x ∷ y ∷ []) id h a = absurd (ground arith)
text_of-of_parts (x ∷ y ∷ z ∷ []) id h a = absurd (ground arith)
text_of-of_parts (x ∷ y ∷ z ∷ w ∷ []) id h a =
    let e : id ≡ record { api_version = x; kind = y; namespace = z; name = w } = cc in
    rw e (refl, record { api_version = a.0; kind = a.1.0; namespace = a.1.1.0; name = a.1.1.1.0 })
text_of-of_parts (x ∷ y ∷ z ∷ w ∷ v ∷ ps) id h a = absurd (ground arith)

-- Whatever an accepted id decodes to is the text of the id that the parser gives, and none of its
-- parts has the separator in it.
text_of-parse_reference_id :
    (co : Coding) (s b t : Text) (id : ReferenceId)
    → co.decode s ≡ some b
    → co.decompress b ≡ some t
    → parse_reference_id co s ≡ ok id
    → (text_of id ≡ t) × IsPlain id
unfolding parse_reference_id
text_of-parse_reference_id co s b t id d c h =
    let parts : of_parts (split_on b'|' t) ≡ ok id = ground (arith, d, c, h) in
    let (p, q) = text_of-of_parts (split_on b'|' t) id parts (Avoids-split_on b'|' t) in
    (p ∙ join_with-split_on b'|' t, q)
