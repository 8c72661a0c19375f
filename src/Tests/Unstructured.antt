-- ===== src/Tests/Unstructured.antt =====
-- The accessors of internal/unstructured on JSON values.
use xgql.Prelude.{◌≡◌, refl, none, some, List, [], ◌∷◌, Text, lit, text_eq, text_beq}
use xgql.Unstructured.Composite.{proper_refs}
use xgql.Unstructured.Composite
use xgql.Unstructured.Managed
use xgql.Unstructured.ProviderConfig
use xgql.Unstructured.Fields.{published_time, get-set-Composite}
use xgql.Unstructured.Unread.{get-set-Managed}
use xgql.Unstructured.Conditions.{get-set_conditions}
use xgql.Unstructured.RoundTrips.{CanSet, Writable, or_zero}
use xgql.Unstructured.Status.{
  status_into, get_conditions, get_condition, set_conditions, get_observed_generation,
  set_observed_generation,
}
use xgql.Unstructured.{spec}
use xgql.Tests.Json.{
  Json, get_at, text, network, network-Writable, set, set_at, leads, paved, writable, text_codec,
  conditions, generation, conditioning,
}

status-Writable : Writable paved (lit "status") network
unfolding text_beq
status-Writable = writable (lit "status") network (refl, refl)

can_publish : CanSet paved network published_time
unfolding set leads text_beq
can_publish v = (set_at published_time v network, refl)

abbrev written : Json
written = Composite.set_connection_details_last_published_time paved text_codec (some (lit "t")) (
    Composite.set_composition_revision_selector paved text_codec (some (lit "q")) (
      Composite.set_composition_revision_reference paved text_codec (some (lit "r")) (
        Composite.set_publish_connection_details_to paved text_codec (some (lit "d")) (
          Composite.set_write_connection_secret_to_reference paved text_codec (some (lit "s")) (
            Composite.set_claim_reference paved text_codec none (
              Composite.set_composition_reference paved text_codec (some (lit "y")) (
                Composite.set_composition_selector paved text_codec (some (lit "x")) (
                  Composite.set_composition_update_policy paved (some (lit "Manual"))
                    network))))))))

get-set-Composite_example :
    (Composite.get_composition_selector paved text_codec written
      ≡ some (or_zero text_codec (some (lit "x"))))
    × (Composite.get_composition_reference paved text_codec written
        ≡ some (or_zero text_codec (some (lit "y"))))
    × (Composite.get_claim_reference paved text_codec written ≡ some (or_zero text_codec none))
    × (Composite.get_write_connection_secret_to_reference paved text_codec written
        ≡ some (or_zero text_codec (some (lit "s"))))
    × (Composite.get_publish_connection_details_to paved text_codec written
        ≡ some (or_zero text_codec (some (lit "d"))))
    × (Composite.get_composition_revision_reference paved text_codec written
        ≡ some (or_zero text_codec (some (lit "r"))))
    × (Composite.get_composition_revision_selector paved text_codec written
        ≡ some (or_zero text_codec (some (lit "q"))))
    × (Composite.get_connection_details_last_published_time paved text_codec written
        ≡ some (or_zero text_codec (some (lit "t"))))
    × (Composite.get_composition_update_policy paved written ≡ some (lit "Manual"))
get-set-Composite_example =
    get-set-Composite paved text_codec network (some (lit "x")) (some (lit "y")) none
      (some (lit "s")) (some (lit "d")) (some (lit "r")) (some (lit "q")) (some (lit "t"))
      (some (lit "Manual")) network-Writable can_publish
      (refl, (refl, (tt, (refl, (refl, (refl, (refl, (refl, tt))))))))

abbrev managed : Json
managed = Managed.set_management_policies paved text_codec (lit "Observe") (
    Managed.set_deletion_policy paved text_codec (lit "Orphan") (
      Managed.set_publish_connection_details_to paved text_codec (some (lit "d")) (
        Managed.set_write_connection_secret_to_reference paved text_codec (some (lit "s")) (
          Managed.set_provider_config_reference paved text_codec none
            (Managed.set_provider_reference paved text_codec (some (lit "p")) network)))))

get-set-Managed_example :
    (Managed.get_provider_reference paved text_codec managed
      ≡ some (or_zero text_codec (some (lit "p"))))
    × (Managed.get_provider_config_reference paved text_codec managed
        ≡ some (or_zero text_codec none))
    × (Managed.get_write_connection_secret_to_reference paved text_codec managed
        ≡ some (or_zero text_codec (some (lit "s"))))
    × (Managed.get_publish_connection_details_to paved text_codec managed
        ≡ some (or_zero text_codec (some (lit "d"))))
    × (Managed.get_deletion_policy paved text_codec managed ≡ lit "Orphan")
    × (get_at (spec (lit "managementPolicies")) managed ≡ some (text (lit "Observe")))
    × (Managed.get_management_policies paved text_codec managed ≡ none)
    × (ProviderConfig.get_users paved text_codec
          (ProviderConfig.set_users paved text_codec (lit "3") network)
        ≡ lit "3")
get-set-Managed_example =
    get-set-Managed paved text_codec network (some (lit "p")) none (some (lit "s")) (some (lit "d"))
      (lit "Orphan") (lit "Observe") (lit "3") network-Writable (status-Writable (lit "users"))
      (refl, (tt, (refl, (refl, tt)))) (refl, refl)

abbrev refs : List Text
refs = lit "a" ∷ [] ∷ lit "b" ∷ []

get-set_conditions_example :
    let merged = conditioning.merge (status_into paved conditions network).0 (lit "Ready" ∷ []) in
    (get_conditions paved conditioning conditions
        (set_conditions paved conditioning conditions (lit "Ready" ∷ []) network)
      ≡ merged)
    × (get_condition paved conditioning conditions
          (lit "Ready")
          (set_conditions paved conditioning conditions (lit "Ready" ∷ []) network)
        ≡ conditioning.find (lit "Ready") merged)
    × (get_observed_generation paved generation
          (set_conditions paved conditioning conditions (lit "Ready" ∷ []) network)
        ≡ get_observed_generation paved generation network)
    × (get_observed_generation paved generation (set_observed_generation paved generation 3 network)
        ≡ 3)
    × (get_conditions paved conditioning conditions (
          set_conditions paved conditioning conditions
            (lit "Ready" ∷ [])
            (set_observed_generation paved generation 3 network))
        ≡ merged)
unfolding text_beq
get-set_conditions_example =
    get-set_conditions paved conditioning conditions generation (lit "Ready" ∷ []) (lit "Ready") 3
      network refl refl status-Writable refl refl
