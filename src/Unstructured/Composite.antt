-- ===== src/Unstructured/Composite.antt =====
-- internal/unstructured/composite.go: the accessors of a composite resource; Status has those of its
-- conditions and its observed generation. A setter's nil pointer is `none`.
use xgql.Prelude.{not, Option, List, [], ◌∷◌, Text, lit, text_eq, ◌==◌, filter}
use xgql.Unstructured.{
  Paved, Codec, spec, pointer_at, value_at, text_at, put_value, put_pointer, put_text,
}

-- The loop of SetResourceReferences and SetEnvironmentConfigReferences; `string` and `empty` are the
-- String method and the zero value of a reference.
unfoldable pub proper_refs : {R : Type 0} → (R → Text) → R → List R → List R
unfolding filter
proper_refs string empty refs = filter (λ r. not (string r == string empty)) refs

module _ {O V : Type 0} (p : Paved O V) where
  unfoldable pub get_composition_selector : {T : Type 0} → Codec p.null T → O → Option T
  unfolding pointer_at
  get_composition_selector c o = pointer_at p c (spec (lit "compositionSelector")) o

  unfoldable pub set_composition_selector : {T : Type 0} → Codec p.null T → Option T → O → O
  unfolding put_pointer
  set_composition_selector c x o = put_pointer p c (spec (lit "compositionSelector")) x o

  unfoldable pub get_composition_reference : {T : Type 0} → Codec p.null T → O → Option T
  unfolding pointer_at
  get_composition_reference c o = pointer_at p c (spec (lit "compositionRef")) o

  unfoldable pub set_composition_reference : {T : Type 0} → Codec p.null T → Option T → O → O
  unfolding put_pointer
  set_composition_reference c x o = put_pointer p c (spec (lit "compositionRef")) x o

  unfoldable pub get_claim_reference : {T : Type 0} → Codec p.null T → O → Option T
  unfolding pointer_at
  get_claim_reference c o = pointer_at p c (spec (lit "claimRef")) o

  unfoldable pub set_claim_reference : {T : Type 0} → Codec p.null T → Option T → O → O
  unfolding put_pointer
  set_claim_reference c x o = put_pointer p c (spec (lit "claimRef")) x o

  unfoldable pub get_resource_references : {R : Type 0} → Codec p.null (List R) → O → List R
  unfolding value_at
  get_resource_references c o = value_at p c (spec (lit "resourceRefs")) o

  unfoldable pub set_resource_references :
      {R : Type 0} → Codec p.null (List R) → (R → Text) → R → List R → O → O
  unfolding put_value proper_refs
  set_resource_references c string empty refs o =
      put_value p c (spec (lit "resourceRefs")) (proper_refs string empty refs) o

  unfoldable pub get_write_connection_secret_to_reference :
      {T : Type 0} → Codec p.null T → O → Option T
  unfolding pointer_at
  get_write_connection_secret_to_reference c o =
      pointer_at p c (spec (lit "writeConnectionSecretToRef")) o

  unfoldable pub set_write_connection_secret_to_reference :
      {T : Type 0} → Codec p.null T → Option T → O → O
  unfolding put_pointer
  set_write_connection_secret_to_reference c x o =
      put_pointer p c (spec (lit "writeConnectionSecretToRef")) x o

  unfoldable pub get_connection_details_last_published_time :
      {T : Type 0} → Codec p.null T → O → Option T
  unfolding pointer_at
  get_connection_details_last_published_time c o =
      pointer_at p c (lit "status" ∷ lit "connectionDetails" ∷ lit "lastPublishedTime" ∷ []) o

  unfoldable pub set_connection_details_last_published_time :
      {T : Type 0} → Codec p.null T → Option T → O → O
  unfolding put_pointer
  set_connection_details_last_published_time c x o =
      put_pointer p c (lit "status" ∷ lit "connectionDetails" ∷ lit "lastPublishedTime" ∷ []) x o

  unfoldable pub get_publish_connection_details_to : {T : Type 0} → Codec p.null T → O → Option T
  unfolding pointer_at
  get_publish_connection_details_to c o = pointer_at p c (spec (lit "publishConnectionDetailsTo")) o

  unfoldable pub set_publish_connection_details_to :
      {T : Type 0} → Codec p.null T → Option T → O → O
  unfolding put_pointer
  set_publish_connection_details_to c x o =
      put_pointer p c (spec (lit "publishConnectionDetailsTo")) x o

  unfoldable pub get_composition_revision_reference : {T : Type 0} → Codec p.null T → O → Option T
  unfolding pointer_at
  get_composition_revision_reference c o = pointer_at p c (spec (lit "compositionRevisionRef")) o

  unfoldable pub set_composition_revision_reference :
      {T : Type 0} → Codec p.null T → Option T → O → O
  unfolding put_pointer
  set_composition_revision_reference c x o =
      put_pointer p c (spec (lit "compositionRevisionRef")) x o

  unfoldable pub get_composition_revision_selector : {T : Type 0} → Codec p.null T → O → Option T
  unfolding pointer_at
  get_composition_revision_selector c o =
      pointer_at p c (spec (lit "compositionRevisionSelector")) o

  unfoldable pub set_composition_revision_selector :
      {T : Type 0} → Codec p.null T → Option T → O → O
  unfolding put_pointer
  set_composition_revision_selector c x o =
      put_pointer p c (spec (lit "compositionRevisionSelector")) x o

  unfoldable pub get_composition_update_policy : O → Option Text
  unfolding text_at
  get_composition_update_policy o = text_at p (spec (lit "compositionUpdatePolicy")) o

  unfoldable pub set_composition_update_policy : Option Text → O → O
  unfolding put_text
  set_composition_update_policy x o = put_text p (spec (lit "compositionUpdatePolicy")) x o

  unfoldable pub get_environment_config_references :
      {R : Type 0} → Codec p.null (List R) → O → List R
  unfolding value_at
  get_environment_config_references c o = value_at p c (spec (lit "environmentConfigRefs")) o

  unfoldable pub set_environment_config_references :
      {R : Type 0} → Codec p.null (List R) → (R → Text) → R → List R → O → O
  unfolding put_value proper_refs
  set_environment_config_references c string empty refs o =
      put_value p c (spec (lit "environmentConfigRefs")) (proper_refs string empty refs) o
