-- ===== src/Refresh/Trackers.antt =====
-- The trackers of internal/cache/live_query.go in a run: no query has two.
use xgql.Prelude.{
  ◌≡◌, [], false, lookup-delete, true, nat_eq, lookup, inl, nat_beq, Text, beq_refl, some, insert,
  inr, arith, List, Bool-cases, Dict, none, delete, nat_beq_iff, Option, ℕ, Bool, ◌∷◌,
}
use xgql.Kube.{Gvk, item_gvk}
use xgql.Cache.Tracker.{Tracker, track, track_list}
use xgql.Cache.LiveQueries.{
  LiveQueries, Handler, broadcast, Object, tell, on_add, on_update, on_delete, Read, object, list,
  unknown, Calls, tracker_of, register, track_object, read,
}
use xgql.Cache.LiveQueries.Broadcast.{IsMap, broadcast_lem}
use xgql.Cache.LiveQueries.Tracking.{register_lem}
use xgql.Refresh.{
  System, start_system, Run, rest, step, Change, added, updated, deleted, handle, with_query,
  with_pending, after_change, after_read, Seen, Step,
}
use xgql.Cache.LiveQueries
use xgql.Refresh.Step.{
  reads, changes, triggers, skips, rearms, gives_up, expires, notifies, wakes, ends, returns,
}

delete-IsMap : (m : Dict ℕ Tracker) (k : ℕ) → IsMap m → IsMap (delete m k)
unfolding delete
delete-IsMap [] k h = tt
delete-IsMap ((i, q) ∷ m) k h = ground (arith, lookup-delete m k i, delete-IsMap m k h.1)

insert-IsMap : (m : Dict ℕ Tracker) (k : ℕ) (q : Tracker) → IsMap m → IsMap (insert m k q)
unfolding insert
insert-IsMap m k q h = (ground (arith, lookup-delete m k k, beq_refl k), delete-IsMap m k h)

broadcast-IsMap :
    (live : ℕ → Bool) (handle : Handler) (m : Dict ℕ Tracker)
    → IsMap m
    → IsMap (broadcast live handle m).0
unfolding broadcast
broadcast-IsMap live handle [] h = tt
broadcast-IsMap live handle ((i, q) ∷ m) h = elim (Bool-cases (live i)) [
  | inl p ↦
      ground (arith, p, h.0, broadcast_lem live handle m i h.1, broadcast-IsMap live handle m h.1)
  | inr p ↦ ground (arith, p, broadcast-IsMap live handle m h.1)
]

abbrev pub IsSingle : LiveQueries → Type 0
IsSingle c = IsMap c.queries

tell-IsSingle :
    (live : ℕ → Bool) (gvk : Option Gvk) (handle : Gvk → Handler) (c : LiveQueries)
    → IsSingle c
    → IsSingle (tell live gvk handle c).0
unfolding tell
tell-IsSingle live none handle c h = h
tell-IsSingle live (some g) handle c h = broadcast-IsMap live (handle g) c.queries h

handle-IsSingle :
    (live : ℕ → Bool) (ch : Change) (c : LiveQueries) → IsSingle c → IsSingle (handle live ch c).0
unfolding handle on_add on_update on_delete
handle-IsSingle live (added none l) c h = h
handle-IsSingle live (added (some o) true) c h = h
handle-IsSingle live (added (some o) false) c h = tell-IsSingle live o.gvk _ c h
handle-IsSingle live (updated none n) c h = h
handle-IsSingle live (updated (some o) none) c h = h
handle-IsSingle live (updated (some o) (some n)) c h = tell-IsSingle live o.gvk _ c h
handle-IsSingle live (deleted none) c h = h
handle-IsSingle live (deleted (some o)) c h = tell-IsSingle live o.gvk _ c h

register-IsSingle :
    (w : Calls) (i : ℕ) (gvk : Gvk) (follow : Tracker → Tracker) (c : LiveQueries)
    → IsSingle c
    → IsSingle (register w i gvk follow c).0
unfolding register
register-IsSingle w i gvk follow c h =
    ground (arith, h, insert-IsMap c.queries i (follow (tracker_of (lookup c.queries i))) h)

pub read-IsSingle :
    (found : Bool) (w : Calls) (i : ℕ) (r : Read) (c : LiveQueries)
    → IsSingle c
    → IsSingle (read found w (some i) r c).0
unfolding read track_object
read-IsSingle false w i r c h = h
read-IsSingle true w i unknown c h = h
read-IsSingle true w i (object uid gvk) c h = register-IsSingle w i gvk (track uid gvk) c h
read-IsSingle true w i (list gvk) c h =
    register-IsSingle w i (item_gvk gvk) (track_list (item_gvk gvk)) c h

pub Step-IsSingle :
    {throttle : ℕ} {e : Seen} {s t : System}
    → Step throttle e s t
    → IsSingle s.cache
    → IsSingle t.cache
unfolding with_query with_pending after_change after_read
Step-IsSingle {s = s} (reads i found w r p q) h = read-IsSingle found w i r s.cache h
Step-IsSingle {s = s} (changes ch p) h = handle-IsSingle _ ch s.cache h
Step-IsSingle (triggers i now ids p st) h = h
Step-IsSingle (skips i ids p d) h = h
Step-IsSingle (rearms i now p st) h = h
Step-IsSingle (gives_up i p d) h = h
Step-IsSingle (expires i now st) h = h
Step-IsSingle (notifies i now p st) h = h
Step-IsSingle (wakes i p c) h = h
Step-IsSingle (ends i) h = h
Step-IsSingle (returns i now d st) h = h

pub Run-IsSingle :
    {throttle : ℕ} {es : List Seen} {s t : System}
    → Run throttle s es t
    → IsSingle s.cache
    → IsSingle t.cache
Run-IsSingle rest h = h
Run-IsSingle (step st run) h = Run-IsSingle run (Step-IsSingle st h)

pub start-IsSingle : IsSingle start_system.cache
unfolding start_system LiveQueries.new
start-IsSingle = tt

-- The query has a tracker, which passes the test.
abbrev pub holds : (Tracker → Bool) → Option Tracker → Bool
holds test none = false
holds test (some q) = test q

follow-holds :
    (follow : Tracker → Tracker) (test : Tracker → Bool) (o : Option Tracker)
    → ((q : Tracker) → test q ≡ true → test (follow q) ≡ true)
    → holds test o ≡ true
    → test (follow (tracker_of o)) ≡ true
unfolding tracker_of
follow-holds follow test none f h = absurd (ground (arith, h))
follow-holds follow test (some q) f h = f q h

-- Reads keep a test that following more keeps.
register-holds :
    (w : Calls) (i j : ℕ) (k : Gvk) (follow : Tracker → Tracker) (test : Tracker → Bool)
    (c : LiveQueries)
    → ((q : Tracker) → test q ≡ true → test (follow q) ≡ true)
    → holds test (lookup c.queries i) ≡ true
    → holds test (lookup (register w j k follow c).0.queries i) ≡ true
register-holds w i j k follow test c f h =
    let p = (register_lem w j i k k follow c).1 in
    elim (Bool-cases (nat_beq j i)) [
      | inl e ↦ rw p (
          ground
            (arith, e, h, (nat_beq_iff j i).0 e, follow-holds follow test (lookup c.queries i) f h))
      | inr e ↦ rw p (ground (arith, e, h))
    ]

pub read-holds :
    (found : Bool) (w : Calls) (i j : ℕ) (r : Read) (test : Tracker → Bool) (c : LiveQueries)
    → ((u : Text) (k : Gvk) (q : Tracker) → test q ≡ true → test (track u k q) ≡ true)
    → ((k : Gvk) (q : Tracker) → test q ≡ true → test (track_list k q) ≡ true)
    → holds test (lookup c.queries i) ≡ true
    → holds test (lookup (read found w (some j) r c).0.queries i) ≡ true
unfolding read track_object
read-holds false w i j r test c f g h = h
read-holds true w i j unknown test c f g h = h
read-holds true w i j (object v k) test c f g h =
    register-holds w i j k (track v k) test c (f v k) h
read-holds true w i j (list k) test c f g h =
    register-holds w i j (item_gvk k) (track_list (item_gvk k)) test c (g (item_gvk k)) h
