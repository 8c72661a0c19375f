-- ===== src/Unstructured/Status.antt =====
-- The status accessors that composite.go, claim.go, managed.go and providerconfig.go of
-- internal/unstructured share. A status is read as its conditions, or as its observed generation.
use xgql.Prelude.{◌≡◌, Bool, true, false, Option, none, some, List, Text}
use xgql.Unstructured.{Paved, Codec, status, in_status, put_value}

-- A struct of package v1 of crossplane-runtime that is inlined in the status: its one field, and how a
-- status is read into it, which is how its field is read.
pub record Inline {V : Type 0} (null : V) (field : V → Text → Option V) (T : Type 0) : Type 0 where
  pub name : Text
  pub part : Codec null T
  pub read : V → T × Bool
  pub read-none : (v : V) → field v name ≡ none → (read v).0 ≡ part.zero
  pub read-part : (v w : V) → field v name ≡ some w → read v ≡ part.decode w

-- ConditionedStatus: how it merges conditions into a slice, which may be nil, and finds one.
pub record Conditioning (Condition : Type 0) : Type 0 where
  pub empty : Condition
  pub merge : Option (List Condition) → List Condition → Option (List Condition)
  pub find : Text → Option (List Condition) → Condition

module _ {O V : Type 0} (p : Paved O V) where
  unfoldable pub inlined : {T : Type 0} → Inline p.null p.field T → Option V → T × Bool
  inlined i none = (i.part.zero, false)
  inlined i (some v) = i.read v

  -- `GetValueInto("status", …)`
  unfoldable pub status_into : {T : Type 0} → Inline p.null p.field T → O → T × Bool
  unfolding inlined
  status_into i o = inlined i (p.get o status)

  unfoldable pub put_in_status : {T : Type 0} → Inline p.null p.field T → T → O → O
  unfolding put_value
  put_in_status i t o = put_value p i.part (in_status i.name) t o

  module _ {C : Type 0} (k : Conditioning C) (i : Inline p.null p.field (Option (List C))) where
    unfoldable pub found : Text → Option (List C) × Bool → C
    found ct (cs, true) = k.find ct cs
    found ct (cs, false) = k.empty

    -- GetCondition
    unfoldable pub get_condition : Text → O → C
    unfolding status_into found
    get_condition ct o = found ct (status_into i o)

    -- SetConditions
    unfoldable pub set_conditions : List C → O → O
    unfolding status_into put_in_status
    set_conditions cs o = put_in_status i (k.merge (status_into i o).0 cs) o

    unfoldable pub read_only : Option (List C) × Bool → Option (List C)
    read_only (cs, true) = cs
    read_only (cs, false) = none

    -- GetConditions
    unfoldable pub get_conditions : O → Option (List C)
    unfolding status_into read_only
    get_conditions o = read_only (status_into i o)

  -- SetObservedGeneration and GetObservedGeneration
  unfoldable pub set_observed_generation : {G : Type 0} → Inline p.null p.field G → G → O → O
  unfolding put_in_status
  set_observed_generation i g o = put_in_status i g o

  unfoldable pub get_observed_generation : {G : Type 0} → Inline p.null p.field G → O → G
  unfolding status_into
  get_observed_generation i o = (status_into i o).0
