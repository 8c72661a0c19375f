-- ===== src/Auth/Extract.antt =====
-- How internal/auth/auth.go takes credentials from a request, or from the payload of a websocket.
use xgql.Prelude.{
  ℕ, Bool, true, false, ◌||◌, not, Option, none, some, List, [], ◌∷◌, Text, Dict, if◌then◌else◌,
  is_empty, ◌==◌, text_eq, split_on, has_prefix, trim_prefix, insert,
}
use xgql.Auth.Header
use xgql.Auth.Header.{Header}
use xgql.Auth.Credentials.{
  Credentials, Impersonation, AuthenticatingProxy, no_proxy, header_authn, prefix_bearer,
  header_impersonate_user, header_impersonate_group, header_prefix_impersonate_extra,
  header_x_remote_user, header_x_remote_group, header_prefix_x_remote_extra,
}

-- `tls` is the number of peer certificates of a TLS connection.
pub record Request : Type 0 where
  pub header : Header
  pub tls : Option ℕ

-- `len(h) != 2 || h[0] != prefixBearer`
unfoldable pub bearer_of : List Text → Text
bearer_of (p ∷ t ∷ []) = if p == prefix_bearer then t else []
bearer_of _ = []

-- ExtractBearerToken
unfoldable pub extract_bearer_token : Request → Text
extract_bearer_token r = bearer_of (split_on b' ' (Header.get r.header header_authn))

-- The loop that collects the headers with a prefix.
unfoldable pub extract_extra : Text → Header → Dict Text (List Text) → Dict Text (List Text)
extract_extra prefix [] extra = extra
extract_extra prefix ((k, v) ∷ h) extra =
    extract_extra prefix h
      (if has_prefix prefix k then insert extra (trim_prefix prefix k) v else extra)

-- ExtractImpersonation; a nil map and an empty one are not told apart.
unfoldable pub extract_impersonation : Request → Impersonation
unfolding extract_extra
extract_impersonation r = record {
  username = Header.get r.header header_impersonate_user;
  groups = Header.values r.header header_impersonate_group;
  extra = extract_extra header_prefix_impersonate_extra r.header [];
}

-- `r.TLS == nil || len(r.TLS.PeerCertificates) == 0`
unfoldable pub has_certificate : Option ℕ → Bool
has_certificate none = false
has_certificate (some ℕ.zero) = false
has_certificate (some (ℕ.suc n)) = true

-- ExtractAuthenticatingProxy
unfoldable pub extract_authenticating_proxy : Request → AuthenticatingProxy
unfolding extract_extra has_certificate
extract_authenticating_proxy r =
    if has_certificate r.tls
    then record {
      username = Header.get r.header header_x_remote_user;
      groups = Header.values r.header header_x_remote_group;
      extra = extract_extra header_prefix_x_remote_extra r.header [];
    }
    else no_proxy

-- The test of `WebsocketInit` on the credentials of the request's headers.
unfoldable pub present : Credentials → Bool
present c =
    not (is_empty c.basic_username)
    || not (is_empty c.basic_password)
    || not (is_empty c.bearer_token)
    || not (is_empty c.impersonate.username)
    || not (is_empty c.impersonate.groups)
    || not (is_empty c.impersonate.extra)

-- The headers that `WebsocketInit` makes of the payload, where each key has its `GetString`.
unfoldable pub header_of_payload : List (Text × Text) → Header → Header
header_of_payload [] h = h
header_of_payload ((k, s) ∷ payload) h =
    header_of_payload payload (if is_empty s then h else Header.add h k s)

module _ (basic_auth : Text → Text × Text) where
  -- What `Middleware` puts into the context of a request; `basic_auth` is how Go decodes the
  -- `Authorization` header, with two empty texts for what is no basic authentication.
  unfoldable pub credentials_of : Request → Credentials
  credentials_of r =
      let (bu, bp) = basic_auth (Header.get r.header header_authn) in
      record {
        bearer_token = extract_bearer_token r;
        basic_username = bu;
        basic_password = bp;
        impersonate = extract_impersonation r;
        authenticating_proxy = extract_authenticating_proxy r;
      }

  -- WebsocketInit: the credentials in the context that it returns.
  unfoldable pub websocket_init : Option Credentials → List (Text × Text) → Option Credentials
  websocket_init ctx payload =
      let fresh =
        some (credentials_of (record { header = header_of_payload payload []; tls = none })) in
      elim ctx [ none ↦ fresh | some c ↦ if present c then some c else fresh ]
