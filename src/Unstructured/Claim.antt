-- ===== src/Unstructured/Claim.antt =====
-- internal/unstructured/claim.go: the accessors of a claim; Status has those of its conditions and its
-- observed generation.
use xgql.Prelude.{Option, [], ◌∷◌, Text, lit, text_eq}
use xgql.Unstructured.{Paved, Codec, spec, pointer_at, text_at, put_pointer, put_text}

module _ {O V : Type 0} (p : Paved O V) where
  unfoldable pub get_composition_selector : {T : Type 0} → Codec p.null T → O → Option T
  unfolding pointer_at
  get_composition_selector c o = pointer_at p c (spec (lit "compositionSelector")) o

  unfoldable pub set_composition_selector : {T : Type 0} → Codec p.null T → Option T → O → O
  unfolding put_pointer
  set_composition_selector c x o = put_pointer p c (spec (lit "compositionSelector")) x o

  unfoldable pub get_composition_reference : {T : Type 0} → Codec p.null T → O → Option T
  unfolding pointer_at
  get_composition_reference c o = pointer_at p c (spec (lit "compositionRef")) o

  unfoldable pub set_composition_reference : {T : Type 0} → Codec p.null T → Option T → O → O
  unfolding put_pointer
  set_composition_reference c x o = put_pointer p c (spec (lit "compositionRef")) x o

  unfoldable pub get_resource_reference : {T : Type 0} → Codec p.null T → O → Option T
  unfolding pointer_at
  get_resource_reference c o = pointer_at p c (spec (lit "resourceRef")) o

  unfoldable pub set_resource_reference : {T : Type 0} → Codec p.null T → Option T → O → O
  unfolding put_pointer
  set_resource_reference c x o = put_pointer p c (spec (lit "resourceRef")) x o

  unfoldable pub get_write_connection_secret_to_reference :
      {T : Type 0} → Codec p.null T → O → Option T
  unfolding pointer_at
  get_write_connection_secret_to_reference c o =
      pointer_at p c (spec (lit "writeConnectionSecretToRef")) o

  unfoldable pub set_write_connection_secret_to_reference :
      {T : Type 0} → Codec p.null T → Option T → O → O
  unfolding put_pointer
  set_write_connection_secret_to_reference c x o =
      put_pointer p c (spec (lit "writeConnectionSecretToRef")) x o

  unfoldable pub get_connection_details_last_published_time :
      {T : Type 0} → Codec p.null T → O → Option T
  unfolding pointer_at
  get_connection_details_last_published_time c o =
      pointer_at p c (lit "status" ∷ lit "connectionDetails" ∷ lit "lastPublishedTime" ∷ []) o

  unfoldable pub set_connection_details_last_published_time :
      {T : Type 0} → Codec p.null T → Option T → O → O
  unfolding put_pointer
  set_connection_details_last_published_time c x o =
      put_pointer p c (lit "status" ∷ lit "connectionDetails" ∷ lit "lastPublishedTime" ∷ []) x o

  unfoldable pub get_composite_delete_policy : O → Option Text
  unfolding text_at
  get_composite_delete_policy o = text_at p (spec (lit "compositeDeletePolicy")) o

  unfoldable pub set_composite_delete_policy : Option Text → O → O
  unfolding put_text
  set_composite_delete_policy x o = put_text p (spec (lit "compositeDeletePolicy")) x o

  unfoldable pub get_publish_connection_details_to : {T : Type 0} → Codec p.null T → O → Option T
  unfolding pointer_at
  get_publish_connection_details_to c o = pointer_at p c (spec (lit "publishConnectionDetailsTo")) o

  unfoldable pub set_publish_connection_details_to :
      {T : Type 0} → Codec p.null T → Option T → O → O
  unfolding put_pointer
  set_publish_connection_details_to c x o =
      put_pointer p c (spec (lit "publishConnectionDetailsTo")) x o

  unfoldable pub get_composition_revision_reference : {T : Type 0} → Codec p.null T → O → Option T
  unfolding pointer_at
  get_composition_revision_reference c o = pointer_at p c (spec (lit "compositionRevisionRef")) o

  unfoldable pub set_composition_revision_reference :
      {T : Type 0} → Codec p.null T → Option T → O → O
  unfolding put_pointer
  set_composition_revision_reference c x o =
      put_pointer p c (spec (lit "compositionRevisionRef")) x o

  unfoldable pub get_composition_revision_selector : {T : Type 0} → Codec p.null T → O → Option T
  unfolding pointer_at
  get_composition_revision_selector c o =
      pointer_at p c (spec (lit "compositionRevisionSelector")) o

  unfoldable pub set_composition_revision_selector :
      {T : Type 0} → Codec p.null T → Option T → O → O
  unfolding put_pointer
  set_composition_revision_selector c x o =
      put_pointer p c (spec (lit "compositionRevisionSelector")) x o

  unfoldable pub get_composition_update_policy : O → Option Text
  unfolding text_at
  get_composition_update_policy o = text_at p (spec (lit "compositionUpdatePolicy")) o

  unfoldable pub set_composition_update_policy : Option Text → O → O
  unfolding put_text
  set_composition_update_policy x o = put_text p (spec (lit "compositionUpdatePolicy")) x o
