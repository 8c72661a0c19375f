-- ===== src/Model/Composites/Statuses.antt =====
-- The statuses of composite resources, claims, managed resources and provider configs: composite.go,
-- managed.go and providerconfig.go of internal/graph/model.
use xgql.Prelude.{
  ◌≡◌, refl, Bool, true, false, ◌||◌, Option, none, some, List, ℕ, arith, if◌then◌else◌,
}
use xgql.Model.Meta.{RawCondition, Condition, get_conditions}
use xgql.Model.Composites.{
  Codecs, ResourceStatus, proper_conditions, proper_status, proper_users, conditions_at,
  get_composite_resource_status, get_composite_resource_claim_status, get_managed_resource_status,
  get_provider_config_status,
}
use xgql.Unstructured.{Paved}
use xgql.Unstructured.Composite
use xgql.Unstructured.Claim
use xgql.Unstructured.ProviderConfig

abbrev pub shown : Option ResourceStatus → Option (List Condition)
shown none = none
shown (some st) = st.conditions

abbrev pub is_set {ℓ} : {A : Type ℓ} → Option A → Bool
is_set none = false
is_set (some a) = true

shown-proper_status :
    (cs : Option (List Condition)) (t : Option ℕ)
    → (shown (proper_status (record { conditions = cs; last_published_time = t })) ≡ cs)
      × (is_set (proper_status (record { conditions = cs; last_published_time = t }))
          ≡ (is_set cs || is_set t))
unfolding proper_status
shown-proper_status none none = (refl, refl)
shown-proper_status none (some t) = (refl, refl)
shown-proper_status (some cs) t = (refl, refl)

is_set-proper_users :
    {U : Type 0} (cs : Option (List Condition)) (n : Option U)
    → is_set (proper_users (record { conditions = cs; users = n })) ≡ (is_set cs || is_set n)
unfolding proper_users
is_set-proper_users none none = refl
is_set-proper_users none (some n) = refl
is_set-proper_users (some cs) n = refl

is_set-get_conditions : (cs : Option (List RawCondition)) → is_set (get_conditions cs) ≡ is_set cs
unfolding get_conditions
is_set-get_conditions none = refl
is_set-get_conditions (some cs) = refl

-- Read as a composite resource, as a claim and as a managed resource, an object shows the same
-- conditions, and none where it has none or an empty list of them. As a composite resource and as a
-- claim it has the same status, which is missing just when there are no conditions and no time of
-- publication; as a provider config its status is missing just when it has no conditions, an empty list
-- being some, and no positive number of users.
statuses_agree :
    {O V R K E U M : Type 0} (p : Paved O V) (c : Codecs p.null p.field R K E U) (meta : O → M)
    (o : O)
    → let cs = conditions_at p c meta o in
      (shown (get_composite_resource_status p c meta o) ≡ proper_conditions cs)
      × (get_managed_resource_status p c meta o ≡ proper_conditions cs)
      × (get_composite_resource_claim_status p c meta o ≡ get_composite_resource_status p c meta o)
      × (is_set (get_composite_resource_status p c meta o) ≡ (
          is_set (proper_conditions cs)
          || is_set (Composite.get_connection_details_last_published_time p c.time o)))
      × (is_set (get_provider_config_status p c meta o)
          ≡ (is_set cs || c.is_positive (ProviderConfig.get_users p c.users o)))
unfolding get_composite_resource_status get_managed_resource_status
    get_composite_resource_claim_status get_provider_config_status
    Composite.get_connection_details_last_published_time
    Claim.get_connection_details_last_published_time
statuses_agree p c meta o =
    let cs = conditions_at p c meta o in
    let t = Composite.get_connection_details_last_published_time p c.time o in
    let users = ProviderConfig.get_users p c.users o in
    let n = if c.is_positive users then some users else none in
    (
      (shown-proper_status (proper_conditions cs) t).0,
      refl,
      refl,
      (shown-proper_status (proper_conditions cs) t).1,
      ground (arith, is_set-proper_users (get_conditions cs) n, is_set-get_conditions cs),
    )
