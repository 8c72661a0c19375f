-- ===== src/Tests/Auth.antt =====
-- Credentials of internal/auth/auth.go at concrete requests.
use xgql.Prelude.{
  ◌≡◌, ◌⊎◌, ◌≢◌, refl, none, some, List, [], ◌∷◌, ◌++◌, Text, lit, text_beq, split_on, lookup,
  Avoids, text_eq,
}
use xgql.Auth.Header
use xgql.Auth.Header.{Header, canonical}
use xgql.Auth.Credentials.{Credentials, AuthenticatingProxy, no_proxy, header_authn, prefix_bearer}
use xgql.Auth.Extract.{Request, extract_bearer_token, bearer_of, present, websocket_init}
use xgql.Auth.Bearer.{header-extract_bearer_token}
use xgql.Auth.Websocket.{only_proxied, websocket_init-present, websocket_init_proxied}

abbrev with_token : Request
with_token = record { header = (lit "Authorization", lit "Bearer toke" ∷ []) ∷ []; tls = none }

token_extracted : extract_bearer_token with_token ≡ lit "toke"
unfolding extract_bearer_token bearer_of Header.get Header.values canonical lookup text_beq split_on
token_extracted = refl

header_value : Header.get with_token.header header_authn ≡ prefix_bearer ++ b' ' ∷ lit "toke"
unfolding Header.get Header.values canonical lookup text_beq
header_value = refl

has_token : extract_bearer_token with_token ≢ []
unfolding extract_bearer_token bearer_of Header.get Header.values canonical lookup text_beq split_on
has_token = λ p. cc

header-extract_bearer_token_example :
    (Header.get with_token.header header_authn
      ≡ prefix_bearer ++ b' ' ∷ extract_bearer_token with_token)
    × Avoids b' ' (extract_bearer_token with_token)
header-extract_bearer_token_example = header-extract_bearer_token with_token has_token

abbrev pub someone : Credentials
someone = record {
  bearer_token = lit "toke";
  basic_username = [];
  basic_password = [];
  impersonate = record { username = lit "imp"; groups = lit "g" ∷ lit "h" ∷ []; extra = [] };
  authenticating_proxy = no_proxy;
}

-- A stand-in for the digest, and one for the sorted list that keeps nothing.
abbrev pub identity : Text → Text
identity t = t

abbrev pub no_groups : List Text → List Text
no_groups gs = []

-- No header is basic authentication.
abbrev no_basic : Text → Text × Text
no_basic s = ([], [])

websocket_init-present_example :
    websocket_init no_basic (some someone) ((lit "Authorization", lit "Bearer x") ∷ [])
    ≡ some someone
websocket_init-present_example =
    websocket_init-present no_basic someone ((lit "Authorization", lit "Bearer x") ∷ [])
      (unfold present in refl)

abbrev jane : AuthenticatingProxy
jane = record { username = lit "jane"; groups = []; extra = [] }

websocket_init_proxied_example :
    ((websocket_init no_basic (some someone) [] ≡ some someone)
      ⊎ (someone ≡ only_proxied someone.authenticating_proxy))
    × (d : Credentials) × (websocket_init no_basic (some (only_proxied jane)) [] ≡ some d)
    × (websocket_init no_basic none [] ≡ some d)
    × (d.authenticating_proxy ≡ no_proxy)
websocket_init_proxied_example = websocket_init_proxied no_basic someone jane []
