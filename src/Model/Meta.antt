-- ===== src/Model/Meta.antt =====
-- What internal/graph/model/objectmeta.go and common.go show of labels, annotations, secrets and config maps, and
-- the conditions of a status.
pub mod Keys
use xgql.Prelude.{
  ℕ, Bool, true, false, Option, none, some, List, [], ◌∷◌, map, Text, lit, text_eq, ◌==◌, is_empty,
  Dict, lookup, insert, if◌then◌else◌,
}

-- A map, which may be nil.
abbrev pub Data : Type 0
Data = Option (Dict Text Text)

unfoldable pub put : Text → Option Text → Dict Text Text → Dict Text Text
put k none out = out
put k (some v) out = insert out k v

-- The loop over the keys, with what is in the result before it.
unfoldable pub select_loop : Dict Text Text → Dict Text Text → List Text → Dict Text Text
unfolding put
select_loop m out [] = out
select_loop m out (k ∷ ks) = select_loop m (put k (lookup m k) out) ks

-- ObjectMeta.Labels, ObjectMeta.Annotations, Secret.Data and ConfigMap.Data.
unfoldable pub select : Data → Option (List Text) → Data
select m none = m
select none (some keys) = none
select (some m) (some keys) = some (select_loop m [] keys)

pub data ConditionStatus : Type 0 where
  holds fails unknown : ConditionStatus
  other : Text → ConditionStatus

-- A condition of Kubernetes, and of the model.
pub record RawCondition : Type 0 where
  pub type : Text
  pub status : Text
  pub last_transition_time : ℕ
  pub reason : Text
  pub message : Text

pub record Condition : Type 0 where
  pub type : Text
  pub status : ConditionStatus
  pub last_transition_time : ℕ
  pub reason : Text
  pub message : Option Text

-- GetConditionStatus
unfoldable pub get_condition_status : Text → ConditionStatus
get_condition_status s =
    if s == lit "True"
    then ConditionStatus.holds
    else if s == lit "False"
    then ConditionStatus.fails
    else if s == lit "Unknown"
    then ConditionStatus.unknown
    else other s

-- A pointer to a text, nil for the empty one.
unfoldable pub text_ptr : Text → Option Text
text_ptr [] = none
text_ptr (c ∷ cs) = some (c ∷ cs)

unfoldable pub get_condition : RawCondition → Condition
unfolding get_condition_status text_ptr
get_condition c = record {
  type = c.type;
  status = get_condition_status c.status;
  last_transition_time = c.last_transition_time;
  reason = c.reason;
  message = text_ptr c.message;
}

-- GetConditions, of a list that may be nil.
unfoldable pub get_conditions : Option (List RawCondition) → Option (List Condition)
unfolding get_condition
get_conditions none = none
get_conditions (some cs) = some (map get_condition cs)
