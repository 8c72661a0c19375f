-- ===== src/Cache/Tracker.antt =====
-- The `liveQueryTracker` of internal/cache/live_query.go: what one live query has read. A kind is
-- tracked as a whole (a nil set in the source, `none` here) or by the UIDs of single objects.
pub mod Interest
use xgql.Prelude.{
  ◌≡◌, Bool, true, false, ◌||◌, Option, none, some, List, [], ◌∷◌, Text, Dict, lookup, insert, Eq,
  if◌then◌else◌, text_eq,
}
use xgql.Kube.{Gvk, gvk_eq}
use xgql.Cache.Set

abbrev pub Tracker : Type 0
Tracker = Dict Gvk (Option (List Text))

-- newLiveQueryTracker
unfoldable pub new : Tracker
new = []

-- Track
unfoldable pub track : Text → Gvk → Tracker → Tracker
track oid gvk q = elim (lookup q gvk) [
  | none ↦ insert q gvk (some (oid ∷ []))
  | some none ↦ q
  | some (some uids) ↦ insert q gvk (some (Set.add uids oid).0)
]

-- TrackList
unfoldable pub track_list : Gvk → Tracker → Tracker
track_list gvk q = insert q gvk none

-- OnCreate, OnUpdate and OnDelete: whether the live query is triggered.
unfoldable pub on_create : Gvk → Tracker → Bool
on_create gvk q = elim (lookup q gvk) [ none ↦ false | some none ↦ true | some (some uids) ↦ false ]

unfoldable pub on_update : Text → Text → Gvk → Tracker → Bool
on_update old new gvk q = elim (lookup q gvk) [
  | none ↦ false
  | some none ↦ true
  | some (some uids) ↦ Set.contains uids old || Set.contains uids new
]

unfoldable pub on_delete : Text → Gvk → Tracker → Tracker × Bool
on_delete uid gvk q = elim (lookup q gvk) [
  | none ↦ (q, false)
  | some none ↦ (q, true)
  | some (some uids) ↦ (insert q gvk (some (Set.remove uids uid).0), (Set.remove uids uid).1)
]
