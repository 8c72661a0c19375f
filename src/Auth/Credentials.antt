-- ===== src/Auth/Credentials.antt =====
-- The credentials of internal/auth/auth.go: their hash, and what they do to a client's requests.
use xgql.Prelude.{Bool, ◌||◌, not, List, [], ◌∷◌, ◌++◌, Text, lit, Dict, if◌then◌else◌, is_empty}
use xgql.Auth.Header
use xgql.Auth.Header.{Header}

abbrev pub header_authn : Text
header_authn = lit "Authorization"

abbrev pub prefix_bearer : Text
prefix_bearer = lit "Bearer"

abbrev pub header_impersonate_user : Text
header_impersonate_user = lit "Impersonate-User"

abbrev pub header_impersonate_group : Text
header_impersonate_group = lit "Impersonate-Group"

abbrev pub header_prefix_impersonate_extra : Text
header_prefix_impersonate_extra = lit "Impersonate-Extra-"

abbrev pub header_x_remote_user : Text
header_x_remote_user = lit "X-Remote-User"

abbrev pub header_x_remote_group : Text
header_x_remote_group = lit "X-Remote-Group"

abbrev pub header_prefix_x_remote_extra : Text
header_prefix_x_remote_extra = lit "X-Remote-Extra-"

pub record Impersonation : Type 0 where
  pub username : Text
  pub groups : List Text
  pub extra : Dict Text (List Text)

pub record AuthenticatingProxy : Type 0 where
  pub username : Text
  pub groups : List Text
  pub extra : Dict Text (List Text)

pub record Credentials : Type 0 where
  pub bearer_token : Text
  pub basic_username : Text
  pub basic_password : Text
  pub impersonate : Impersonation
  pub authenticating_proxy : AuthenticatingProxy

-- `AuthenticatingProxy{}`
abbrev pub no_proxy : AuthenticatingProxy
no_proxy = record { username = []; groups = []; extra = [] }

-- The condition under which `Inject` wraps the transport.
unfoldable pub has_proxy : AuthenticatingProxy → Bool
has_proxy p = not (is_empty p.username) || not (is_empty p.groups) || not (is_empty p.extra)

-- What `Inject` sets of a `rest.Config`; `wraps` are the transports put round
-- the client's by `Wrap`, the outermost last.
pub record Config : Type 0 where
  pub bearer_token : Text
  pub username : Text
  pub password : Text
  pub impersonate : Impersonation
  pub wraps : List AuthenticatingProxy

-- Inject
unfoldable pub inject : Credentials → Config → Config
unfolding has_proxy
inject c cfg = record {
  bearer_token = c.bearer_token;
  username = c.basic_username;
  password = c.basic_password;
  impersonate = c.impersonate;
  wraps =
      if has_proxy c.authenticating_proxy
      then cfg.wraps ++ c.authenticating_proxy ∷ []
      else cfg.wraps;
}

unfoldable pub add_all : Header → Text → List Text → Header
add_all h k [] = h
add_all h k (v ∷ vs) = add_all (Header.add h k v) k vs

unfoldable pub add_extra : Header → Dict Text (List Text) → Header
unfolding add_all
add_extra h [] = h
add_extra h ((k, vs) ∷ extra) = add_extra (add_all h (header_prefix_x_remote_extra ++ k) vs) extra

-- authenticatingProxyTransport.RoundTrip, before it hands the request on.
unfoldable pub round_trip : AuthenticatingProxy → Header → Header
unfolding add_extra
round_trip t h =
    let user = if is_empty t.username then h else Header.set h header_x_remote_user t.username in
    add_extra (add_all user header_x_remote_group t.groups) t.extra

-- The concatenation that `Hash` writes of the groups.
unfoldable pub concat : List Text → Text
concat [] = []
concat (g ∷ gs) = g ++ concat gs

-- Hash, over the digest and over `sets.List` of a set of strings.
unfoldable pub hash :
    (digest : Text → Text) (sorted_set : List Text → List Text) → Text → Credentials → Text
unfolding concat
hash digest sorted_set extra c = digest (
    c.impersonate.username
    ++ (c.authenticating_proxy.username
        ++ (concat (sorted_set (c.impersonate.groups ++ c.authenticating_proxy.groups)) ++ extra)))
