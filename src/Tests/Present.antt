-- ===== src/Tests/Present.antt =====
-- The presentation of errors at concrete inputs.
use xgql.Prelude.{
  ◌≡◌, refl, false, Option, none, some, [], ◌∷◌, ◌++◌, Text, lit, text_eq, lookup, exists_in,
}
use xgql.Present.{
  Source, source, Failure, graphql, api_status, plain, Extensions, error, is_server, is_status,
}
use xgql.Present.Sources.{error-source}

abbrev on_path : Failure → Text × Option Extensions
on_path err = (err.message, some ((lit "source", source Source.unknown) ∷ []))

abbrev graphql_text : Text → Text
graphql_text t = lit "input: " ++ t

abbrev timeout : Failure
timeout = record {
  message = lit "cannot list: too slow";
  layers = plain ∷ graphql (lit "too slow") none ∷ api_status (lit "Timeout") 504 ∷ [];
}

not_converted : exists_in is_server timeout.layers ≡ false
unfolding exists_in is_server
not_converted = refl

error-source_example :
    lookup (error on_path graphql_text timeout).extensions (lit "source")
    ≡ some (source Source.api_server)
unfolding exists_in is_status
error-source_example = error-source on_path graphql_text timeout not_converted
