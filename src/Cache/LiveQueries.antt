-- ===== src/Cache/LiveQueries.antt =====
-- The `liveQueryCache` of internal/cache/live_query.go: its trackers, its handlers and its events. A
-- query is named by its id; `live` says which are still active.
pub mod Broadcast
pub mod Tracking
use xgql.Prelude.{
  ℕ, ◌≡◌, Bool, true, false, ◌||◌, Option, none, some, List, [], ◌∷◌, ◌++◌, Text, Dict, lookup,
  insert, Eq, if◌then◌else◌, nat_eq,
}
use xgql.Kube.{Gvk, gvk_eq, item_gvk}
use xgql.Cache.Set
use xgql.Cache.Tracker
use xgql.Cache.Tracker.{Tracker, track, track_list}

pub record LiveQueries : Type 0 where
  pub queries : Dict ℕ Tracker
  pub handles : List Gvk

-- WithLiveQueries
unfoldable pub new : LiveQueries
new = record { queries = []; handles = [] }

-- What a handler does to one tracker, and whether it triggers the query.
abbrev pub Handler : Type 0
Handler = Tracker → Tracker × Bool

-- The loop of the three handlers: dead queries go, live ones are told. The ids are those triggered.
unfoldable pub broadcast : (ℕ → Bool) → Handler → Dict ℕ Tracker → Dict ℕ Tracker × List ℕ
broadcast live handle [] = ([], [])
broadcast live handle ((i, q) ∷ queries) =
    let (rest, ids) = broadcast live handle queries in
    let (q', notify) = handle q in
    if live i then ((i, q') ∷ rest, if notify then i ∷ ids else ids) else (rest, ids)

-- An object of an event, as far as a handler reads it.
pub record Object : Type 0 where
  pub uid : Text
  pub gvk : Option Gvk  -- `none` where `GVKForObject` fails

unfoldable pub tell : (ℕ → Bool) → Option Gvk → (Gvk → Handler) → LiveQueries → LiveQueries × List ℕ
unfolding broadcast
tell live none handle c = (c, [])
tell live (some gvk) handle c =
    let (queries, ids) = broadcast live (handle gvk) c.queries in
    (record c { queries = queries }, ids)

-- OnAdd, OnDelete and OnUpdate; `none` is what is no `client.Object`.
unfoldable pub on_add : (ℕ → Bool) → Option Object → Bool → LiveQueries → LiveQueries × List ℕ
unfolding tell
on_add live none is_in_initial_list c = (c, [])
on_add live (some o) is_in_initial_list c =
    if is_in_initial_list then (c, []) else tell live o.gvk (λ g q. (q, Tracker.on_create g q)) c

unfoldable pub on_delete : (ℕ → Bool) → Option Object → LiveQueries → LiveQueries × List ℕ
unfolding tell
on_delete live none c = (c, [])
on_delete live (some o) c = tell live o.gvk (λ g. Tracker.on_delete o.uid g) c

unfoldable pub on_update :
    (ℕ → Bool) → Option Object → Option Object → LiveQueries → LiveQueries × List ℕ
unfolding tell
on_update live none n c = (c, [])
on_update live (some o) none c = (c, [])
on_update live (some o) (some n) c =
    tell live o.gvk (λ g q. (q, Tracker.on_update o.uid n.uid g q)) c

-- What a read returned: an object, or a list of objects of the kind less its `List`.
pub data Read : Type 0 where
  object : Text → Gvk → Read
  list : Gvk → Read
  unknown : Read  -- `GVKForObject` fails

-- How the calls of the underlying cache end: the informer, and its `AddEventHandler`.
pub record Calls : Type 0 where
  pub informer : Bool
  pub add_handler : Bool

unfoldable pub tracker_of : Option Tracker → Tracker
tracker_of none = Tracker.new
tracker_of (some q) = q

-- Whether the kind has a handler now, and the handles.
unfoldable pub handle_kind : Calls → Gvk → List Gvk → List Gvk × Bool
handle_kind w gvk handles =
    let (handles', added) = Set.add handles gvk in
    if added
    then if w.add_handler then (handles', true) else ((Set.remove handles' gvk).0, false)
    else (handles', true)

unfoldable pub register : Calls → ℕ → Gvk → (Tracker → Tracker) → LiveQueries → LiveQueries × Bool
unfolding tracker_of
register w qid gvk follow c =
    let (handles, done) = handle_kind w gvk c.handles in
    let q = follow (tracker_of (lookup c.queries qid)) in
    let tracked = if done then insert c.queries qid q else c.queries in
    if w.informer then (record { queries = tracked; handles = handles }, done) else (c, false)

-- trackObject: `none` is a context without a live query; the Boolean is false for an error.
unfoldable pub track_object : Calls → Option ℕ → Read → LiveQueries → LiveQueries × Bool
unfolding register
track_object w none r c = (c, true)
track_object w (some qid) unknown c = (c, false)
track_object w (some qid) (object uid gvk) c = register w qid gvk (track uid gvk) c
track_object w (some qid) (list gvk) c = let g = item_gvk gvk in register w qid g (track_list g) c

-- Get and List: what the underlying cache fails to read is not tracked.
unfoldable pub read : (found : Bool) → Calls → Option ℕ → Read → LiveQueries → LiveQueries × Bool
read false w qid r c = (c, false)
read true w qid r c = track_object w qid r c
