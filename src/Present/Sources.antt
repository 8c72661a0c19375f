-- ===== src/Present/Sources.antt =====
-- The source that is shown for an error.
use xgql.Prelude.{
  ℕ, ◌≡◌, refl, ap, ◌∙◌, true, false, ◌||◌, Option, none, some, List, [], ◌∷◌, Text, lit, text_eq,
  text_beq, lookup, lookup-insert, exists_in, if◌then◌else◌, arith,
}
use xgql.Present.{
  Source, Code, Value, source, code, Extensions, ServerError, Layer, errno, Failure, is_status,
  is_kind, is_resource, is_cache, is_deadline, is_errno, is_server, convert, status_of, server_of,
  put_all, extended, extend, hinted, extensions_of, error,
}

-- Where an error comes from, by the errors of its chain.
abbrev pub source_of : List Layer → Source
source_of ls =
    if exists_in is_status ls
    then Source.api_server
    else if exists_in is_kind ls || exists_in is_resource ls
    then Source.api
    else if exists_in is_cache ls
    then Source.cache
    else if exists_in is_deadline ls || exists_in is_errno ls
    then Source.network
    else Source.unknown

put_all-lookup :
    (m ext : Extensions) (k : Text) (v : Value)
    → lookup ext k ≡ some v
    → lookup (put_all m ext) k ≡ some v
unfolding put_all lookup
put_all-lookup m [] k v h = absurd (ground (arith, h))
put_all-lookup m ((j, w) ∷ ext) k v h =
    lookup-insert (put_all m ext) j k w ∙ ground (arith, h, put_all-lookup m ext k v)

extended-lookup :
    (message : Text) (m : Option Extensions) (ext : Extensions) (k : Text) (v : Value)
    → lookup ext k ≡ some v
    → lookup (extended message m ext).extensions k ≡ some v
unfolding extended
extended-lookup message none ext k v h = h
extended-lookup message (some m) ext k v h = put_all-lookup m ext k v h

-- The source that `Error` takes from the converted error.
abbrev shown : Option ServerError → Option (Text × ℕ) → Source
shown (some e) s = e.source
shown none (some s) = Source.api_server
shown none none = Source.unknown

server_of-none : (ls : List Layer) → exists_in is_server ls ≡ false → server_of ls ≡ none
unfolding exists_in is_server server_of
server_of-none [] h = refl
server_of-none (l ∷ ls) h = ground (arith, h, server_of-none ls)

status_of-none : (ls : List Layer) → exists_in is_status ls ≡ false → status_of ls ≡ none
unfolding exists_in is_status status_of
status_of-none [] h = refl
status_of-none (l ∷ ls) h = ground (arith, h, status_of-none ls)

shown_status :
    (ls : List Layer)
    → exists_in is_status ls ≡ true
    → shown none (status_of ls) ≡ Source.api_server
unfolding exists_in is_status status_of
shown_status [] h = absurd (ground (arith, h))
shown_status (l ∷ ls) h = ground (arith, h, shown_status ls)

convert-shown :
    (err : Failure)
    → exists_in is_server err.layers ≡ false
    → shown (server_of (convert err).layers) (status_of (convert err).layers) ≡ source_of err.layers
unfolding convert server_of status_of
convert-shown err h =
    let ls = err.layers in ground (arith, server_of-none ls h, status_of-none ls, shown_status ls)

extensions_of-source :
    (e : Option ServerError) (s : Option (Text × ℕ))
    → lookup (extensions_of e s) (lit "source") ≡ some (source (shown e s))
unfolding extensions_of lookup text_beq
extensions_of-source (some e) s = refl
extensions_of-source none (some (reason, n)) = refl
extensions_of-source none none = refl

module _ (on_path : Failure → Text × Option Extensions) (graphql_text : Text → Text) where
  extend-lookup :
      (err : Failure) (ext : Extensions) (k : Text) (v : Value)
      → lookup ext k ≡ some v
      → lookup (extend on_path graphql_text err ext).extensions k ≡ some v
  unfolding extend
  extend-lookup err ext k v h = extended-lookup (on_path err).0 (on_path err).1 ext k v h

  -- The source that `Error` shows for an error whose chain holds no error that was converted before,
  -- whatever extensions it has already: the API server if the chain holds a status error; else the API if
  -- it holds an error on an unknown kind or resource; else the cache if one of a cache that has not
  -- started; else the network if it holds the deadline's error or any error number of the system; else it
  -- is unknown.
  pub error-source :
      (err : Failure)
      → exists_in is_server err.layers ≡ false
      → lookup (error on_path graphql_text err).extensions (lit "source")
        ≡ some (source (source_of err.layers))
  unfolding error
  error-source err h =
      let c = convert err in
      let e = server_of c.layers in
      let t = status_of c.layers in
      extend-lookup (hinted on_path graphql_text c e t) (extensions_of e t) (lit "source")
        (source (source_of err.layers))
        (extensions_of-source e t ∙ ap (λ s. some (source s)) (convert-shown err h))

  -- An error number of the system, whichever it is, is shown as one of the network that may be retried.
  error-errno :
      (n : ℕ) (message : Text)
      → let r = error on_path graphql_text (record { message = message; layers = errno n ∷ [] }) in
        (lookup r.extensions (lit "source") ≡ some (source Source.network))
        × (lookup r.extensions (lit "code") ≡ some (code Code.retryable))
  unfolding error convert lookup text_beq exists_in is_status is_kind is_resource is_cache
      is_deadline is_errno server_of status_of extensions_of hinted
  error-errno n message =
      let c = convert (record { message = message; layers = errno n ∷ [] }) in
      let e = server_of c.layers in
      (
        extend-lookup (hinted on_path graphql_text c e none) (extensions_of e none) (lit "source")
            (source Source.network) refl,
        extend-lookup (hinted on_path graphql_text c e none) (extensions_of e none) (lit "code")
            (code Code.retryable) refl,
      )
