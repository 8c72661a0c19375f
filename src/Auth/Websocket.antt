-- ===== src/Auth/Websocket.antt =====
-- Which credentials a websocket of internal/auth/auth.go works with.
use xgql.Prelude.{
  ◌≡◌, ◌⊎◌, inl, inr, refl, true, false, none, some, List, [], ◌∷◌, Text, is_empty, Bool-cases,
  arith,
}
use xgql.Auth.Credentials.{Credentials, AuthenticatingProxy, no_proxy}
use xgql.Auth.Extract.{
  credentials_of, present, header_of_payload, websocket_init, extract_authenticating_proxy,
}

-- Credentials that are a proxied identity and nothing else.
abbrev pub only_proxied : AuthenticatingProxy → Credentials
only_proxied x = record {
  bearer_token = [];
  basic_username = [];
  basic_password = [];
  impersonate = record { username = []; groups = []; extra = [] };
  authenticating_proxy = x;
}

is_empty-nil : {A : Type 0} (xs : List A) → is_empty xs ≡ true → xs ≡ []
is_empty-nil [] h = refl
is_empty-nil (x ∷ xs) h = absurd (ground (arith, h))

present_none : (c : Credentials) → present c ≡ false → c ≡ only_proxied c.authenticating_proxy
unfolding present
present_none c h = ground (
  arith,
  is_empty-nil c.bearer_token (ground (arith, h)),
  is_empty-nil c.basic_username (ground (arith, h)),
  is_empty-nil c.basic_password (ground (arith, h)),
  is_empty-nil c.impersonate.username (ground (arith, h)),
  is_empty-nil c.impersonate.groups (ground (arith, h)),
  is_empty-nil c.impersonate.extra (ground (arith, h)),
)

module _ (basic_auth : Text → Text × Text) where
  -- Bearer or basic credentials, or an impersonation, in the headers of a websocket's request are
  -- kept, whatever the payload says.
  pub websocket_init-present :
      (c : Credentials) (payload : List (Text × Text))
      → present c ≡ true
      → websocket_init basic_auth (some c) payload ≡ some c
  unfolding websocket_init
  websocket_init-present c payload h = rw h

  -- In the headers a proxied identity alone is no credential: the payload decides as it does without any
  -- headers, and no user is proxied any more. Whatever else is in the headers is kept.
  pub websocket_init_proxied :
      (c : Credentials) (x : AuthenticatingProxy) (payload : List (Text × Text))
      → ((websocket_init basic_auth (some c) payload ≡ some c)
          ⊎ (c ≡ only_proxied c.authenticating_proxy))
        × (d : Credentials) × (websocket_init basic_auth (some (only_proxied x)) payload ≡ some d)
        × (websocket_init basic_auth none payload ≡ some d)
        × (d.authenticating_proxy ≡ no_proxy)
  unfolding websocket_init present credentials_of extract_authenticating_proxy
  websocket_init_proxied c x payload = (
    elim (Bool-cases (present c)) [ inl h ↦ inl (rw h) | inr h ↦ inr (present_none c h) ],
    credentials_of basic_auth (record { header = header_of_payload payload []; tls = none }),
    refl,
    refl,
    refl,
  )
