-- ===== src/Cache/LiveQueries/Tracking.antt =====
-- Reads of a live query through internal/cache/live_query.go.
use xgql.Prelude.{
  ℕ, ◌≡◌, ◌&&◌, ◌||◌, some, List, lookup, lookup-insert, if◌then◌else◌, nat_eq, nat_beq, ◌==◌,
  arith,
}
use xgql.Kube.{Gvk, gvk_eq, gvk_beq_iff}
use xgql.Cache.Set
use xgql.Cache.Set.{contains-add, contains-remove, contains_eq}
use xgql.Cache.Tracker.{Tracker}
use xgql.Cache.LiveQueries.{LiveQueries, Calls, tracker_of, handle_kind, register}

handle_kind_lem :
    (w : Calls) (g h : Gvk) (handles : List Gvk)
    → ((handle_kind w g handles).1 ≡ (Set.contains handles g || w.add_handler))
      × (Set.contains (handle_kind w g handles).0 h
          ≡ (Set.contains handles h || (g == h && w.add_handler)))
unfolding handle_kind
handle_kind_lem w g h handles =
    ground
      (arith, contains-add handles g h, contains-remove (Set.add handles g).0 g h, gvk_beq_iff g h)

-- A read that is tracked has a handler on its kind, and its query's tracker, a new one at the first
-- read, follows it; no other query's tracker changes, and a kind that has a handler gets no other.
pub register_lem :
    (w : Calls) (qid j : ℕ) (gvk g : Gvk) (follow : Tracker → Tracker) (c : LiveQueries)
    → let c' = (register w qid gvk follow c).0 in
      let done = (register w qid gvk follow c).1 in
      (done ≡ (w.informer && (Set.contains c.handles gvk || w.add_handler)))
      × (lookup c'.queries j ≡ (
          if done && nat_beq qid j
          then some (follow (tracker_of (lookup c.queries qid)))
          else lookup c.queries j))
      × (Set.contains c'.handles g ≡ (Set.contains c.handles g || (gvk == g && done)))
unfolding register
register_lem w qid j gvk g follow c =
    let (p, q) = handle_kind_lem w gvk g c.handles in
    ground (
      arith,
      p,
      q,
      contains_eq c.handles gvk g,
      gvk_beq_iff gvk g,
      lookup-insert c.queries qid j (follow (tracker_of (lookup c.queries qid))),
    )
