-- ===== src/Unstructured/ProviderConfig.antt =====
-- internal/unstructured/providerconfig.go: the accessors of a provider config; Status has those of its
-- conditions.
use xgql.Prelude.{lit, text_eq}
use xgql.Unstructured.{Paved, Codec, in_status, value_at, put_value}

module _ {O V : Type 0} (p : Paved O V) where
  unfoldable pub get_users : {T : Type 0} → Codec p.null T → O → T
  unfolding value_at
  get_users c o = value_at p c (in_status (lit "users")) o

  unfoldable pub set_users : {T : Type 0} → Codec p.null T → T → O → O
  unfolding put_value
  set_users c x o = put_value p c (in_status (lit "users")) x o
