-- ===== src/Unstructured/Managed.antt =====
-- internal/unstructured/managed.go: the accessors of a managed resource; Status has those of its
-- conditions.
use xgql.Prelude.{Option, lit, text_eq}
use xgql.Unstructured.{
  Paved, ok_only, value_by_value, Codec, spec, pointer_at, value_at, put_value, put_pointer,
}

module _ {O V : Type 0} (p : Paved O V) where
  unfoldable pub get_provider_reference : {T : Type 0} → Codec p.null T → O → Option T
  unfolding pointer_at
  get_provider_reference c o = pointer_at p c (spec (lit "providerRef")) o

  unfoldable pub set_provider_reference : {T : Type 0} → Codec p.null T → Option T → O → O
  unfolding put_pointer
  set_provider_reference c x o = put_pointer p c (spec (lit "providerRef")) x o

  unfoldable pub get_provider_config_reference : {T : Type 0} → Codec p.null T → O → Option T
  unfolding pointer_at
  get_provider_config_reference c o = pointer_at p c (spec (lit "providerConfigRef")) o

  unfoldable pub set_provider_config_reference : {T : Type 0} → Codec p.null T → Option T → O → O
  unfolding put_pointer
  set_provider_config_reference c x o = put_pointer p c (spec (lit "providerConfigRef")) x o

  unfoldable pub get_write_connection_secret_to_reference :
      {T : Type 0} → Codec p.null T → O → Option T
  unfolding pointer_at
  get_write_connection_secret_to_reference c o =
      pointer_at p c (spec (lit "writeConnectionSecretToRef")) o

  unfoldable pub set_write_connection_secret_to_reference :
      {T : Type 0} → Codec p.null T → Option T → O → O
  unfolding put_pointer
  set_write_connection_secret_to_reference c x o =
      put_pointer p c (spec (lit "writeConnectionSecretToRef")) x o

  -- The variable holds the default, `Delete`, which is the zero value of this codec.
  unfoldable pub get_deletion_policy : {T : Type 0} → Codec p.null T → O → T
  unfolding value_at
  get_deletion_policy c o = value_at p c (spec (lit "deletionPolicy")) o

  unfoldable pub set_deletion_policy : {T : Type 0} → Codec p.null T → T → O → O
  unfolding put_value
  set_deletion_policy c x o = put_value p c (spec (lit "deletionPolicy")) x o

  unfoldable pub get_publish_connection_details_to : {T : Type 0} → Codec p.null T → O → Option T
  unfolding pointer_at
  get_publish_connection_details_to c o = pointer_at p c (spec (lit "publishConnectionDetailsTo")) o

  unfoldable pub set_publish_connection_details_to :
      {T : Type 0} → Codec p.null T → Option T → O → O
  unfolding put_pointer
  set_publish_connection_details_to c x o =
      put_pointer p c (spec (lit "publishConnectionDetailsTo")) x o

  -- The policies are read into a slice, not into a pointer to it.
  unfoldable pub get_management_policies : {T : Type 0} → Codec p.null T → O → Option T
  unfolding ok_only
  get_management_policies c o =
      ok_only (value_by_value p c (p.get o (spec (lit "managementPolicies"))))

  unfoldable pub set_management_policies : {T : Type 0} → Codec p.null T → T → O → O
  unfolding put_value
  set_management_policies c x o = put_value p c (spec (lit "managementPolicies")) x o
