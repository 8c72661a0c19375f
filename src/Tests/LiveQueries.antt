-- ===== src/Tests/LiveQueries.antt =====
-- Reads and events of internal/cache/live_query.go.
use xgql.Prelude.{
  ◌≡◌, refl, true, false, List, [], ◌∷◌, lit, lookup, insert, delete, text_eq, text_beq, nat_eq,
}
use xgql.Kube.{Gvk, gvk_eq, gvk_beq}
use xgql.Cache.Set
use xgql.Cache.Tracker
use xgql.Cache.Tracker.{Tracker, track, track_list, on_create}
use xgql.Cache.Tracker.Interest.{
  Op, tracked, listed, created, deleted, run, expected, no_interest, run-eq-expected,
}

abbrev pod : Gvk
pod = record { group = []; version = lit "v1"; kind = lit "Pod" }

abbrev reads : List Op
reads =
    tracked (lit "u") pod
    ∷ created pod
    ∷ deleted (lit "u") pod
    ∷ deleted (lit "u") pod
    ∷ listed pod
    ∷ created pod
    ∷ []

reads-run : run Tracker.new reads ≡ false ∷ true ∷ false ∷ true ∷ []
unfolding run Tracker.new track track_list on_create Tracker.on_delete lookup insert delete gvk_beq
    text_beq Set.add Set.remove Set.contains Set.without
reads-run = refl

run-eq-expected_example : run Tracker.new reads ≡ expected no_interest reads
run-eq-expected_example = run-eq-expected reads
