-- ===== src/Unstructured/Crd.antt =====
-- internal/unstructured/customresourcedefinition.go: the accessors of a custom resource definition.
use xgql.Prelude.{Bool, true, false, Text, lit, text_eq}
use xgql.Unstructured.Names.{or_empty}
use xgql.Unstructured.{Paved, value_into, put, Codec, spec, text_at, put_value}

module _ {O V : Type 0} (p : Paved O V) where
  -- A getter that returns the zero value on an error.
  unfoldable pub read_or_zero : {T : Type 0} → Codec p.null T → T × Bool → T
  read_or_zero c (t, true) = t
  read_or_zero c (t, false) = c.zero

  unfoldable pub get_spec_group : O → Text
  unfolding or_empty text_at
  get_spec_group o = or_empty (text_at p (spec (lit "group")) o)

  unfoldable pub set_spec_group : Text → O → O
  unfolding put
  set_spec_group s o = put p (spec (lit "group")) (p.text s) o

  unfoldable pub get_spec_names : {T : Type 0} → Codec p.null T → O → T
  unfolding read_or_zero value_into
  get_spec_names c o = read_or_zero c (value_into p c (spec (lit "names")) o)

  unfoldable pub set_spec_names : {T : Type 0} → Codec p.null T → T → O → O
  unfolding put_value
  set_spec_names c x o = put_value p c (spec (lit "names")) x o

  unfoldable pub get_spec_scope : O → Text
  unfolding or_empty text_at
  get_spec_scope o = or_empty (text_at p (spec (lit "scope")) o)

  unfoldable pub set_spec_scope : Text → O → O
  unfolding put
  set_spec_scope s o = put p (spec (lit "scope")) (p.text s) o

  unfoldable pub get_status : {T : Type 0} → Codec p.null T → O → T
  unfolding read_or_zero value_into
  get_status c o = read_or_zero c (value_into p c (spec (lit "status")) o)

  unfoldable pub set_status : {T : Type 0} → Codec p.null T → T → O → O
  unfolding put_value
  set_status c x o = put_value p c (spec (lit "status")) x o

  unfoldable pub get_spec_versions : {T : Type 0} → Codec p.null T → O → T
  unfolding read_or_zero value_into
  get_spec_versions c o = read_or_zero c (value_into p c (spec (lit "versions")) o)

  unfoldable pub set_spec_versions : {T : Type 0} → Codec p.null T → T → O → O
  unfolding put_value
  set_spec_versions c x o = put_value p c (spec (lit "versions")) x o
