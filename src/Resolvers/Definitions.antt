-- ===== src/Resolvers/Definitions.antt =====
-- internal/graph/resolvers/apiextensions.go, and DefinedResources of common.go: the resources that a definition
-- defines. How a group and a version are written as one text is a parameter, as is what the client lists.
pub mod Ready
use xgql.Prelude.{
  ℕ, Bool, true, false, ◌&&◌, not, Option, none, some, List, [], ◌∷◌, ◌++◌, Text, lit, text_eq,
  text_ord, ◌==◌, is_empty, length, ltb, map, stable, by_key, if◌then◌else◌,
}
use xgql.Model.Id.{ReferenceId}
use xgql.Resolvers.Objects.{Error, Returned, Object, Resource, Got, Server, model}
use xgql.Resolvers.Composed.{sort_key}
use xgql.Resolvers.Connections.{Connection, connection, refuse, listed, first, required}
use xgql.Resolvers.Queries.{list_kind_of}

pub record XrdVersion : Type 0 where
  pub name : Text
  pub referenceable : Bool
  pub served : Bool

pub record CrdVersion : Type 0 where
  pub name : Text
  pub served : Bool

unfoldable pub served_name : Option CrdVersion → Text
served_name none = []
served_name (some v) = v.name

-- pickCRDVersion
unfoldable pub pick_crd_version : List CrdVersion → Text
unfolding served_name
pick_crd_version vs = served_name (first CrdVersion.served vs)

-- The name of the first version found, or of the second.
unfoldable pub name_of : Option XrdVersion → Option XrdVersion → Text
name_of (some v) w = v.name
name_of none (some w) = w.name
name_of none none = []

-- pickXRDVersion
unfoldable pub pick_xrd_version : List XrdVersion → Text
unfolding name_of
pick_xrd_version vs = name_of (first XrdVersion.referenceable vs) (first XrdVersion.served vs)

pub data Status : Type 0 where
  holds fails unknown : Status

pub record Condition : Type 0 where
  pub type : Text
  pub status : Status

-- A composite resource or a claim: what the handlers read of it.
pub record Conditioned : Type 0 where
  pub id : ReferenceId
  pub conditions : List Condition

-- Whether a status is `True`, compared with a Boolean.
unfoldable pub is_status : Status → Bool → Bool
is_status Status.holds b = b
is_status _ b = not b

-- The loop of `readyMatches`.
unfoldable pub matches : Bool → List Condition → Bool
unfolding is_status
matches ready [] = not ready
matches ready (c ∷ cs) =
    let rest = matches ready cs in if c.type == lit "Ready" then is_status c.status ready else rest

-- readyMatches
unfoldable pub ready_matches : Option Bool → List Condition → Bool
unfolding matches
ready_matches none cs = true
ready_matches (some ready) cs = matches ready cs

pub record Names : Type 0 where
  pub plural : Text
  pub kind : Text
  pub list_kind : Option Text

pub record XrdSpec : Type 0 where
  pub group : Text
  pub versions : List XrdVersion
  pub names : Names
  pub claim_names : Option Names

-- The options of both handlers; that of composite resources has no namespace.
pub record Options : Type 0 where
  pub version : Option Text
  pub namespace : Option Text
  pub ready : Option Bool

abbrev pub no_options : Options
no_options = record { version = none; namespace = none; ready = none }

unfoldable pub or_deprecated : Option Text → Option Text → Option Text
or_deprecated (some v) old = some v
or_deprecated none old = old

-- DeprecationPatch, of composite resources and of claims.
unfoldable pub deprecation_patch : Options → Option Text → Options
unfolding or_deprecated
deprecation_patch o version = record (o) { version = or_deprecated o.version version }

unfoldable pub deprecation_patch_claim : Options → (version namespace : Option Text) → Options
unfolding or_deprecated
deprecation_patch_claim o version namespace = record (o) {
  version = or_deprecated o.version version;
  namespace = or_deprecated o.namespace namespace;
}

unfoldable pub options_of : Option Options → Options
options_of none = no_options
options_of (some o) = o

unfoldable pub version_of : Option Text → Text → Text
version_of none picked = picked
version_of (some v) picked = v

-- What a client lists of an API version, a kind and a namespace.
abbrev pub Lister : Type 0 → Type 0
Lister A = (api_version kind : Text) → (namespace : Option Text) → Option (List A)

module _ (group_version : Text → Text → Text) where
  -- The list that is asked for.
  unfoldable pub defined_items :
      {A : Type 0} → Lister A → Text → Text → Names → Option Text → Option (List A)
  defined_items list group version names namespace =
      list (group_version group version) (list_kind_of names.kind names.list_kind) namespace

  -- DefinedCompositeResources, with getCompositeResourceConnection
  unfoldable pub defined_composite_resources :
      Bool
      → Lister Conditioned
      → XrdSpec
      → (version : Option Text) → Option Options
      → Returned (Connection Conditioned)
  unfolding defined_items
  defined_composite_resources client list spec version options =
      let o = deprecation_patch (options_of options) version in
      listed Conditioned.id Error.list_resources (λ xr. ready_matches o.ready xr.conditions) client
        (defined_items list spec.group (version_of o.version (pick_xrd_version spec.versions))
          spec.names none)

  unfoldable pub defined_claims :
      Bool
      → Lister Conditioned
      → XrdSpec
      → Options
      → Option Names
      → Returned (Connection Conditioned)
  unfolding defined_items
  defined_claims client list spec o none = record { value = connection []; errors = [] }
  defined_claims client list spec o (some names) =
      listed Conditioned.id Error.list_resources (λ c. ready_matches o.ready c.conditions) client
        (defined_items list spec.group (version_of o.version (pick_xrd_version spec.versions)) names
          o.namespace)

  -- DefinedCompositeResourceClaims, with getCompositeResourceClaimConnection
  unfoldable pub defined_composite_resource_claims :
      Bool
      → Lister Conditioned
      → XrdSpec
      → (version namespace : Option Text) → Option Options
      → Returned (Connection Conditioned)
  unfolding defined_claims
  defined_composite_resource_claims client list spec version namespace options =
      defined_claims client list spec
        (deprecation_patch_claim (options_of options) version namespace) spec.claim_names

-- getCrd: `get` reads a definition by its name.
unfoldable pub get_crd :
    {A : Type 0} → Bool → (Text → Got A) → Text → Option Names → Returned (Option A)
get_crd client get group none = record { value = none; errors = [] }
get_crd client get group (some names) =
    required Error.get_crd client (get (names.plural ++ b'.' ∷ group))
