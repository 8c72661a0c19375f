-- ===== src/Resolvers/References.antt =====
-- Reads of what a resource refers to: the handlers of internal/graph/resolvers/composite.go and managed.go
-- and of the definition's specification in apiextensions.go. What the client reads by name is an argument.
pub mod Matching
use xgql.Prelude.{
  Bool, true, false, ◌&&◌, not, Option, none, some, List, [], ◌∷◌, ◌++◌, Text, text_eq, ◌==◌,
  if◌then◌else◌,
}
use xgql.Model.Id.{ReferenceId}
use xgql.Resolvers.Objects.{Error, Returned, Got, found, not_found, failed}
use xgql.Resolvers.Connections.{listed_first, first, required, optional}

-- A reference that may be missing: none is no error.
unfoldable pub followed :
    {R A : Type 0} → (R → Returned (Option A)) → Option R → Returned (Option A)
followed read none = record { value = none; errors = [] }
followed read (some ref) = read ref

-- A namespace and a name.
pub record NamespacedName : Type 0 where
  pub namespace : Text
  pub name : Text

module _ {A : Type 0} where
  -- Composition, of a composite resource and of a claim.
  unfoldable pub composition : Bool → (Text → Got A) → Option Text → Returned (Option A)
  unfolding followed
  composition client get ref =
      followed (λ name. optional Error.get_composition client (get name)) ref

  -- Claim
  unfoldable pub claim : Bool → (ReferenceId → Got A) → Option ReferenceId → Returned (Option A)
  unfolding followed
  claim client get ref = followed (λ id. optional Error.get_xrc client (get id)) ref

  -- ConnectionSecret, of a composite resource and of a claim.
  unfoldable pub connection_secret :
      Bool → (NamespacedName → Got A) → Option NamespacedName → Returned (Option A)
  unfolding followed
  connection_secret client get ref = followed (λ nn. optional Error.get_secret client (get nn)) ref

  -- ConnectionSecret of a managed resource.
  unfoldable pub managed_connection_secret :
      Bool → (NamespacedName → Got A) → Option NamespacedName → Returned (Option A)
  unfolding followed
  managed_connection_secret client get ref =
      followed (λ nn. required Error.get_secret client (get nn)) ref

  -- DefaultComposition and EnforcedComposition
  unfoldable pub spec_composition : Bool → (Text → Got A) → Option Text → Returned (Option A)
  unfolding followed
  spec_composition client get ref =
      followed (λ name. required Error.get_composition client (get name)) ref

-- A composite resource definition; the kind of its claims, where it offers them.
pub record Xrd : Type 0 where
  pub id : ReferenceId
  pub group : Text
  pub kind : Text
  pub claim_kind : Option Text

unfoldable pub defines : (group kind : Text) → Xrd → Bool
defines group kind x = if not (x.group == group) then false else x.kind == kind

unfoldable pub is_claim_kind : (group kind : Text) → Xrd → Option Text → Bool
is_claim_kind group kind x none = false
is_claim_kind group kind x (some k) = if not (x.group == group) then false else k == kind

unfoldable pub offers : (group kind : Text) → Xrd → Bool
unfolding is_claim_kind
offers group kind x = is_claim_kind group kind x x.claim_kind

-- The handlers list before they parse the API version, whose group, if it is well-formed, is given.
unfoldable pub parsed :
    (Text → Xrd → Bool) → Option Text → Bool → Option (List Xrd) → Returned (Option Xrd)
parsed matches group false items = record { value = none; errors = Error.get_client ∷ [] }
parsed matches group true none = record { value = none; errors = Error.list_xrds ∷ [] }
parsed matches none true (some items) = record {
  value = none;
  errors = Error.malformed_api_version ∷ [];
}
parsed matches (some g) true (some items) = record { value = first (matches g) items; errors = [] }

-- A custom resource definition.
pub record Crd : Type 0 where
  pub id : ReferenceId
  pub group : Text
  pub kind : Text

unfoldable pub is_of : (group kind : Text) → Crd → Bool
is_of group kind c = if not (c.group == group) then false else c.kind == kind

-- What is left when the read fails: an object without a group and a kind.
abbrev pub unread : Crd
unread = record {
  id = record { api_version = []; kind = []; namespace = []; name = [] };
  group = [];
  kind = [];
}

unfoldable pub checked : (group kind : Text) → Crd → Option Crd
checked group kind c = if (c.group == group) && (c.kind == kind) then some c else none

unfoldable pub found_or : Option Crd → Option Crd → Option Crd
found_or none d = d
found_or (some c) d = some c

-- With the definition not found by its name, all are listed.
unfoldable pub searched : (group kind : Text) → Option (List Crd) → Returned (Option Crd)
unfolding found_or checked
searched group kind none = record { value = none; errors = Error.list_crds ∷ [] }
searched group kind (some items) = record {
  value = found_or (first (is_of group kind) items) (checked group kind unread);
  errors = [];
}

unfoldable pub looked_up : (group kind : Text) → Got Crd → Option (List Crd) → Returned (Option Crd)
unfolding searched checked
looked_up group kind (found c) items = record { value = checked group kind c; errors = [] }
looked_up group kind not_found items = searched group kind items
looked_up group kind failed items = record { value = none; errors = Error.get_crd ∷ [] }

unfoldable pub of_group :
    (Text → Text)
    → (Text → Got Crd)
    → Option (List Crd)
    → Text
    → Option Text
    → Returned (Option Crd)
unfolding looked_up
of_group plural get items kind none = record {
  value = none;
  errors = Error.malformed_api_version ∷ [];
}
of_group plural get items kind (some g) = looked_up g kind (get (plural kind ++ b'.' ∷ g)) items

module _ (parse_group : Text → Option Text) where
  -- Definition of a composite resource, and that of a claim.
  unfoldable pub composite_definition :
      Bool → Option (List Xrd) → (api_version kind : Text) → Returned (Option Xrd)
  unfolding parsed
  composite_definition client items api_version kind =
      parsed (λ g. defines g kind) (parse_group api_version) client items

  unfoldable pub claim_definition :
      Bool → Option (List Xrd) → (api_version kind : Text) → Returned (Option Xrd)
  unfolding parsed
  claim_definition client items api_version kind =
      parsed (λ g. offers g kind) (parse_group api_version) client items

  -- Definition of a managed resource and of a provider configuration: `plural` is pluralForm of the kind in
  -- lower case, `get` reads a definition by its name, and `items` is what a list returns.
  unfoldable pub managed_definition :
      Bool
      → (plural : Text → Text) → (get : Text → Got Crd) → (items : Option (List Crd))
      → (api_version kind : Text) → Returned (Option Crd)
  unfolding of_group
  managed_definition false plural get items api_version kind = record {
    value = none;
    errors = Error.get_client ∷ [];
  }
  managed_definition true plural get items api_version kind =
      of_group plural get items kind (parse_group api_version)
