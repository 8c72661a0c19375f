-- ===== src/Present.antt =====
-- internal/graph/present/present.go: how errors of the resolvers are shown. An error is the chain that errors.As
-- and errors.Is walk, from the outside in. GraphQL's ErrorOnPath and the text of its errors are parameters.
pub mod Sources
use xgql.Prelude.{
  ℕ, Bool, true, false, ◌||◌, Option, none, some, List, [], ◌∷◌, ◌++◌, Text, lit, text_eq, ◌==◌,
  Dict, lookup, insert, exists_in, if◌then◌else◌,
}

pub data Source : Type 0 where
  api api_server cache network unknown : Source

pub data Code : Type 0 where
  not_found retryable : Code

-- A value of an extension.
pub data Value : Type 0 where
  source : Source → Value
  code : Code → Value
  status : ℕ → Value
  text : Text → Value

abbrev pub Extensions : Type 0
Extensions = Dict Text Value

pub record ServerError : Type 0 where
  pub code : Code
  pub reason : Text
  pub source : Source
  pub type : Text

-- One error of a chain, as far as it is asked for. An error of GraphQL has a message and extensions, if any.
pub data Layer : Type 0 where
  api_status : (reason : Text) → (code : ℕ) → Layer
  no_kind_match no_resource_match cache_not_started deadline_exceeded : Layer
  errno : ℕ → Layer
  graphql : Text → Option Extensions → Layer
  server : ServerError → Layer
  plain : Layer

-- An error: its text, and the chain.
pub record Failure : Type 0 where
  pub message : Text
  pub layers : List Layer

-- What `Error` returns.
pub record Presented : Type 0 where
  pub message : Text
  pub extensions : Extensions

unfoldable pub is_status : Layer → Bool
is_status (api_status reason n) = true
is_status _ = false

unfoldable pub is_kind : Layer → Bool
is_kind Layer.no_kind_match = true
is_kind _ = false

unfoldable pub is_resource : Layer → Bool
is_resource Layer.no_resource_match = true
is_resource _ = false

unfoldable pub is_cache : Layer → Bool
is_cache Layer.cache_not_started = true
is_cache _ = false

unfoldable pub is_deadline : Layer → Bool
is_deadline Layer.deadline_exceeded = true
is_deadline _ = false

-- errors.As with a syscall.Errno: any of them.
unfoldable pub is_errno : Layer → Bool
is_errno (errno n) = true
is_errno _ = false

unfoldable pub is_server : Layer → Bool
is_server (server e) = true
is_server _ = false

abbrev pub failure_of : ServerError → Failure
failure_of e = record { message = e.reason; layers = server e ∷ [] }

-- convert
unfoldable pub convert : Failure → Failure
convert err =
    if exists_in is_status err.layers
    then err
    else if exists_in is_kind err.layers
    then failure_of (record {
      code = Code.not_found;
      reason = err.message;
      source = Source.api;
      type = lit "NoMatchKind";
    })
    else if exists_in is_resource err.layers
    then failure_of (record {
      code = Code.not_found;
      reason = err.message;
      source = Source.api;
      type = lit "NoMatchResource";
    })
    else if exists_in is_cache err.layers
    then failure_of
        (record { code = Code.retryable; reason = err.message; source = Source.cache; type = [] })
    else if exists_in is_deadline err.layers || exists_in is_errno err.layers
    then failure_of
        (record { code = Code.retryable; reason = err.message; source = Source.network; type = [] })
    else err

-- The chain from the first error of GraphQL on, with a text before its message.
unfoldable pub prefixed : Text → List Layer → Option (Text × List Layer)
prefixed m [] = none
prefixed m (graphql t ext ∷ ls) =
    let whole = m ++ (lit ": " ++ t) in some (whole, graphql whole ext ∷ ls)
prefixed m (l ∷ ls) = prefixed m ls

-- What is presented for an error of the API server: its reason and code, the first in the chain.
unfoldable pub status_of : List Layer → Option (Text × ℕ)
status_of [] = none
status_of (api_status reason n ∷ ls) = some (reason, n)
status_of (l ∷ ls) = status_of ls

unfoldable pub server_of : List Layer → Option ServerError
server_of [] = none
server_of (server e ∷ ls) = some e
server_of (l ∷ ls) = server_of ls

-- The extensions are put over those that there are.
unfoldable pub put_all : Extensions → Extensions → Extensions
put_all m [] = m
put_all m ((k, v) ∷ ext) = insert (put_all m ext) k v

unfoldable pub extended : Text → Option Extensions → Extensions → Presented
unfolding put_all
extended message none ext = record { message = message; extensions = ext }
extended message (some m) ext = record { message = message; extensions = put_all m ext }

-- The extensions of a converted error, of one of the API server, and of another.
unfoldable pub extensions_of : Option ServerError → Option (Text × ℕ) → Extensions
extensions_of (some e) s =
    (lit "source", source e.source) ∷ (lit "code", code e.code) ∷ (lit "type", text e.type) ∷ []
extensions_of none (some (reason, n)) =
    (lit "source", source Source.api_server)
    ∷ (lit "reason", text reason)
    ∷ (lit "code", status n)
    ∷ []
extensions_of none none = (lit "source", source Source.unknown) ∷ []

-- `on_path` is ErrorOnPath: the message and the extensions of the error of GraphQL that it makes or finds;
-- `graphql_text` is the text of such an error with a message.
module _ (on_path : Failure → Text × Option Extensions) (graphql_text : Text → Text) where
  -- Extend
  unfoldable pub extend : Failure → Extensions → Presented
  unfolding extended
  extend err ext = let (message, m) = on_path err in extended message m ext

  unfoldable pub wrapped : Failure → Text → Option (Text × List Layer) → Failure
  wrapped err m none = record {
    message = m ++ (lit ": " ++ err.message);
    layers = plain ∷ err.layers;
  }
  wrapped err m (some (t, ls)) = record { message = graphql_text t; layers = ls }

  -- wrap
  unfoldable pub wrap : Failure → Text → Failure
  unfolding wrapped prefixed
  wrap err m = wrapped err m (prefixed m err.layers)

  -- A timeout of the API server is given a hint.
  unfoldable pub hinted : Failure → Option ServerError → Option (Text × ℕ) → Failure
  unfolding wrap
  hinted err (some e) s = err
  hinted err none (some (reason, n)) =
      if reason == lit "Timeout" then wrap err (lit "possible RBAC permissions error") else err
  hinted err none none = err

  -- Error
  unfoldable pub error : Failure → Presented
  unfolding hinted extend
  error err =
      let c = convert err in
      let e = server_of c.layers in
      let s = status_of c.layers in extend (hinted c e s) (extensions_of e s)
