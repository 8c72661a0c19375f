-- ===== src/Unstructured/Unread.antt =====
-- The fields of managed resources, provider configs and definitions of internal/unstructured, and those
-- of them that are never read.
use xgql.Prelude.{
  ◌≡◌, refl, arith, ap, Bool, true, false, Option, none, some, List, [], ◌∷◌, All, Text, lit,
  text_eq, text_beq,
}
use xgql.Unstructured.{
  pointer, Paved, Codec, Segments, Survives, PointerSurvives, value_by_value, apart, spec, status,
  in_status, put_text, ok_only, decoded, value_into, text_at, put, put_value, put_pointer,
}
use xgql.Unstructured.RoundTrips.{
  CanSet, Writable, or_zero, get-put-apart, get-puts, pointer_at-get, value_at-get,
  value_into-put_value, value_at-put_value, text_at-put_text,
}
use xgql.Unstructured.Managed
use xgql.Unstructured.Crd
use xgql.Unstructured.Names.{or_empty}
use xgql.Unstructured.ProviderConfig

-- A variable that could not be filled is no pointer.
refused : {T : Type 0} (r : T × Bool) → r.1 ≡ false → ok_only r ≡ none
unfolding ok_only
refused (t, true) h = absurd (ground (arith, h))
refused (t, false) h = refl

module _ {O V T : Type 0} (p : Paved O V) (c : Codec p.null T) (o : O) where
  by_value-fails : (m : Option V) → (value_by_value p c m).1 ≡ false
  unfolding value_by_value
  by_value-fails none = refl
  by_value-fails (some v) = c.decode_by_value-fails v

  -- A managed resource whose fields were set one after another has in each what was set there, a nil
  -- pointer as an empty value; and so has a provider config its users. But the management policies,
  -- though they are written, are never read, since GetManagementPolicies passes GetValueInto a slice and
  -- no pointer. The fields of the object's specification, and the users in the status, can be set, and
  -- the values that are read are decoded as they were encoded.
  pub get-set-Managed :
      (provider config secret details : Option T) (deletion policies users : T)
      → Writable p (lit "spec") o
      → CanSet p o (in_status (lit "users"))
      → All (PointerSurvives c) (provider ∷ config ∷ secret ∷ details ∷ [])
      → Survives c deletion × Survives c users
      → let o' = Managed.set_management_policies p c policies (
          Managed.set_deletion_policy p c deletion (
            Managed.set_publish_connection_details_to p c details (
              Managed.set_write_connection_secret_to_reference p c secret (
                Managed.set_provider_config_reference p c config
                  (Managed.set_provider_reference p c provider o))))) in
        (Managed.get_provider_reference p c o' ≡ some (or_zero c provider))
        × (Managed.get_provider_config_reference p c o' ≡ some (or_zero c config))
        × (Managed.get_write_connection_secret_to_reference p c o' ≡ some (or_zero c secret))
        × (Managed.get_publish_connection_details_to p c o' ≡ some (or_zero c details))
        × (Managed.get_deletion_policy p c o' ≡ deletion)
        × (p.get o' (spec (lit "managementPolicies")) ≡ some (c.encode policies))
        × (Managed.get_management_policies p c o' ≡ none)
        × (ProviderConfig.get_users p c (ProviderConfig.set_users p c users o) ≡ users)
  unfolding apart text_beq put_pointer put_value Managed.get_provider_reference
      Managed.set_provider_reference Managed.get_provider_config_reference
      Managed.set_provider_config_reference Managed.get_write_connection_secret_to_reference
      Managed.set_write_connection_secret_to_reference Managed.get_publish_connection_details_to
      Managed.set_publish_connection_details_to Managed.get_deletion_policy
      Managed.set_deletion_policy Managed.get_management_policies Managed.set_management_policies
      ProviderConfig.get_users ProviderConfig.set_users
  get-set-Managed provider config secret details deletion policies users w wu e d =
      let ws : List (Segments × V) =
        (spec (lit "managementPolicies"), c.encode policies)
        ∷ (spec (lit "deletionPolicy"), c.encode deletion)
        ∷ (spec (lit "publishConnectionDetailsTo"), pointer p c details)
        ∷ (spec (lit "writeConnectionSecretToRef"), pointer p c secret)
        ∷ (spec (lit "providerConfigRef"), pointer p c config)
        ∷ (spec (lit "providerRef"), pointer p c provider)
        ∷ [] in
      let read = get-puts p ws o refl (w _, (w _, (w _, (w _, (w _, (w _, tt)))))) in
      (
        pointer_at-get p c _ _ provider e.0 (read.1.1.1.1.1.0),
        pointer_at-get p c _ _ config e.1.0 (read.1.1.1.1.0),
        pointer_at-get p c _ _ secret e.1.1.0 (read.1.1.1.0),
        pointer_at-get p c _ _ details e.1.1.1.0 (read.1.1.0),
        value_at-get p c _ _ deletion d.0 (read.1.0),
        read.0,
        refused _ (by_value-fails _),
        value_at-put_value p c (in_status (lit "users")) o wu users d.1,
      )

-- What a setter of a custom resource definition writes, its getter reads. But GetStatus reads the path
-- `spec.status`, where SetStatus writes: the status of a definition, which stands at `status`, is not
-- read, whatever it holds, nor is it changed. The fields of the object's specification can be set, and
-- the values are decoded as they were encoded.
get-set-Crd :
    {O V T : Type 0} (p : Paved O V) (c : Codec p.null T) (t : T) (s : Text) (v : V) (o : O)
    → Writable p (lit "spec") o
    → Survives c t
    → (Crd.get_spec_group p (Crd.set_spec_group p s o) ≡ s)
      × (Crd.get_spec_scope p (Crd.set_spec_scope p s o) ≡ s)
      × (Crd.get_spec_names p c (Crd.set_spec_names p c t o) ≡ t)
      × (Crd.get_spec_versions p c (Crd.set_spec_versions p c t o) ≡ t)
      × (Crd.get_status p c (Crd.set_status p c t o) ≡ t)
      × (Crd.get_status p c (put p status v o) ≡ Crd.get_status p c o)
      × (p.get (Crd.set_status p c t o) status ≡ p.get o status)
unfolding apart text_beq Crd.get_spec_group Crd.set_spec_group Crd.get_spec_scope Crd.set_spec_scope
    Crd.get_spec_names Crd.set_spec_names Crd.get_spec_versions Crd.set_spec_versions Crd.get_status
    Crd.set_status value_into put_value put_text
get-set-Crd p c t s v o w e =
    let texts : (f : Text) → or_empty (text_at p (spec f) (put p (spec f) (p.text s) o)) ≡ s =
      λ f. ap or_empty (text_at-put_text p (spec f) o (w f) (some s)) in
    let values : (f : Text)
        → Crd.read_or_zero p c (value_into p c (spec f) (put_value p c (spec f) t o)) ≡ t =
      λ f. ap (Crd.read_or_zero p c) (value_into-put_value p c (spec f) o (w f) t e) in
    (
      texts _,
      texts _,
      values _,
      values _,
      values _,
      ap (λ m. Crd.read_or_zero p c (decoded p c m))
          (get-put-apart p status (spec (lit "status")) v o refl),
      get-put-apart p (spec (lit "status")) status (c.encode t) o refl,
    )
