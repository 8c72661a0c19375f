-- ===== src/Model/Plain.antt =====
-- Events, secrets and config maps as internal/graph/model models them: event.go, and GetSecret and
-- GetConfigMap of common.go. `meta` is GetObjectMeta.
pub mod Answers
use xgql.Prelude.{
  ℕ, zero, suc, ◌≡◌, Bool, true, false, Option, none, some, List, [], ◌∷◌, Text, lit, text_eq, ◌==◌,
  Dict, map, if◌then◌else◌,
}
use xgql.Model.Id.{ReferenceId}
use xgql.Model.Meta.{Data, text_ptr}
use xgql.Model.Composites.{Resource, SecretReference}

pub data EventType : Type 0 where
  warning normal : EventType

-- GetEventType
unfoldable pub get_event_type : Text → Option EventType
get_event_type s =
    if s == lit "Warning"
    then some EventType.warning
    else if s == lit "Normal"
    then some EventType.normal
    else none

-- An Event of Kubernetes; `R` is an ObjectReference.
pub record RawEvent (R : Type 0) : Type 0 where
  pub api_version : Text
  pub kind : Text
  pub namespace : Text
  pub name : Text
  pub type : Text
  pub involved_object : R
  pub reason : Text
  pub message : Text
  pub count : ℕ
  pub component : Text
  pub first_timestamp : ℕ
  pub last_timestamp : ℕ

pub record EventSpec (R : Type 0) : Type 0 where
  pub type : Option EventType
  pub involved_object_ref : R
  pub reason : Option Text
  pub message : Option Text
  pub count : Option ℕ
  pub source : Option (Option Text)  -- its component
  pub first_time : Option ℕ
  pub last_time : Option ℕ

-- `if e.Count != 0`
unfoldable pub count_of : ℕ → Option ℕ
count_of zero = none
count_of (suc n) = some (suc n)

unfoldable pub source_of : Text → Option (Option Text)
source_of [] = none
source_of (c ∷ s) = some (some (c ∷ s))

-- GetEvent
unfoldable pub get_event :
    {R M : Type 0} → (RawEvent R → M) → RawEvent R → Resource M (EventSpec R) Unit
unfolding get_event_type count_of source_of text_ptr
get_event meta e = record {
  id = record {
    api_version = e.api_version;
    kind = e.kind;
    namespace = e.namespace;
    name = e.name;
  };
  api_version = e.api_version;
  kind = e.kind;
  metadata = meta e;
  spec = record {
    type = get_event_type e.type;
    involved_object_ref = e.involved_object;
    reason = text_ptr e.reason;
    message = text_ptr e.message;
    count = count_of e.count;
    source = source_of e.component;
    first_time = some e.first_timestamp;
    last_time = some e.last_timestamp;
  };
  status = tt;
}

-- A Secret, whose values are bytes, or a ConfigMap, which has no type.
pub record RawData : Type 0 where
  pub namespace : Text
  pub name : Text
  pub type : Text
  pub data_of : Data

pub record DataSpec : Type 0 where
  pub type : Option Text
  pub data_of : Data

-- The loop of GetSecret over the data; the keys of a map are distinct.
unfoldable pub copied : Data → Data
copied none = none
copied (some m) = some (map (λ e. (e.0, e.1)) m)

unfoldable pub named : {M S : Type 0} → Text → (RawData → M) → S → RawData → Resource M S Unit
named kind meta spec o = record {
  id = record { api_version = lit "v1"; kind = kind; namespace = o.namespace; name = o.name };
  api_version = lit "v1";
  kind = kind;
  metadata = meta o;
  spec = spec;
  status = tt;
}

-- GetSecret
unfoldable pub get_secret : {M : Type 0} → (RawData → M) → RawData → Resource M DataSpec Unit
unfolding named copied text_ptr
get_secret meta s =
    let spec : DataSpec = record { type = text_ptr s.type; data_of = copied s.data_of } in
    named (lit "Secret") meta spec s

-- GetConfigMap
unfoldable pub get_config_map : {M : Type 0} → (RawData → M) → RawData → Resource M Data Unit
unfolding named
get_config_map meta cm = named (lit "ConfigMap") meta cm.data_of cm

-- A reference to an object, of Kubernetes and of the model, which has no API version.
pub record RawReference : Type 0 where
  pub kind : Text
  pub namespace : Text
  pub name : Text

pub record ObjectReference : Type 0 where
  pub kind : Option Text
  pub namespace : Option Text
  pub name : Option Text

-- GetObjectReference
unfoldable pub get_object_reference : Option RawReference → Option ObjectReference
unfolding text_ptr
get_object_reference none = none
get_object_reference (some r) =
    some
      (record { kind = text_ptr r.kind; namespace = text_ptr r.namespace; name = text_ptr r.name })

-- GetSecretReference
unfoldable pub get_secret_reference : Option SecretReference → Option SecretReference
get_secret_reference none = none
get_secret_reference (some r) = some (record { namespace = r.namespace; name = r.name })
