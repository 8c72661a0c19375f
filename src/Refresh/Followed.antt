-- ===== src/Refresh/Followed.antt =====
-- Reads and handlers of internal/cache/live_query.go at a query that has read an object, alone or in a
-- list.
use xgql.Prelude.{
  ℕ, ◌≡◌, Bool, true, false, ◌&&◌, ◌||◌, Option, none, some, List, [], arith, nat_eq, Text, text_eq,
  text_beq_iff, lookup, ◌==◌, beq_refl, nat_beq, exists_in,
}
use xgql.Kube.{Gvk, gvk_eq, gvk_beq_iff}
use xgql.Cache.Tracker.{Tracker, track, track_list, on_create, on_update}
use xgql.Cache.Tracker
use xgql.Cache.Tracker.Interest.{
  seen, seen-track, seen-track_list, seen-on_delete, on_update_lem, on_delete_lem,
}
use xgql.Cache.LiveQueries.{
  LiveQueries, Handler, Object, tell, on_add, on_delete, Read, object, list, unknown, Calls,
  tracker_of, register, track_object, read,
}
use xgql.Cache.LiveQueries
use xgql.Cache.LiveQueries.Broadcast.{kept, told, broadcast_lem}
use xgql.Cache.LiveQueries.Tracking.{register_lem}
use xgql.Refresh.{Change, added, updated, deleted, handle}
use xgql.Refresh.Trackers.{IsSingle, holds, read-holds}

-- The query has a tracker, and it follows the object.
abbrev pub followed : Gvk → Text → Option Tracker → Bool
followed g u o = holds (λ q. seen q g u) o

abbrev pub of_kind : Gvk → Option Gvk → Bool
of_kind g none = false
of_kind g (some k) = k == g

-- The change is one of the object.
abbrev pub touches : Gvk → Text → Change → Bool
touches g u (updated (some o) (some n)) = of_kind g o.gvk && (o.uid == u || n.uid == u)
touches g u (deleted (some o)) = of_kind g o.gvk && o.uid == u
touches g u _ = false

-- A handler goes on following the object, or triggers the query; and it triggers for some changes.
record Follows (g : Gvk) (u : Text) (handle : Handler) (b : Bool) : Type 0 where
  goes_on : (q : Tracker) → seen q g u ≡ true → (seen (handle q).0 g u || (handle q).1) ≡ true
  triggers : (q : Tracker) → seen q g u ≡ true → b ≡ true → (handle q).1 ≡ true

module _ (live : ℕ → Bool) (handle : Handler) (i : ℕ) (g : Gvk) (u : Text) (b : Bool)
    (f : Follows g u handle b) (l : live i ≡ true) where
  kept-followed :
      (o : Option Tracker)
      → followed g u o ≡ true
      → ((followed g u (kept live handle i o) || told live handle i o) ≡ true)
        × (b ≡ true → told live handle i o ≡ true)
  kept-followed none h = absurd (ground (arith, h))
  kept-followed (some q) h =
      (ground (arith, l, f.goes_on q h), λ e. ground (arith, l, f.triggers q h e))

  broadcast-followed :
      (c : LiveQueries)
      → IsSingle c
      → followed g u (lookup c.queries i) ≡ true
      → let (queries, ids) = LiveQueries.broadcast live handle c.queries in
        ((followed g u (lookup queries i) || exists_in (nat_beq i) ids) ≡ true)
        × (b ≡ true → exists_in (nat_beq i) ids ≡ true)
  broadcast-followed c m h =
      let (p, q) = broadcast_lem live handle c.queries i m in
      let (x, y) = kept-followed (lookup c.queries i) h in (rw (p, q) x, λ e. rw q (y e))

on_create-Follows : (g k : Gvk) (u : Text) → Follows g u (λ q. (q, on_create k q)) false
on_create-Follows g k u = record {
  goes_on = λ q h. ground (arith, h);
  triggers = λ q h e. absurd (ground (arith, e));
}

on_update-Follows :
    (g k : Gvk) (u v w : Text)
    → Follows g u (λ q. (q, on_update v w k q)) (k == g && (v == u || w == u))
on_update-Follows g k u v w = record {
  goes_on = λ q h. ground (arith, h);
  triggers = λ q h e.
      ground
        (arith, on_update_lem q v w k, h, e, gvk_beq_iff k g, text_beq_iff v u, text_beq_iff w u);
}

on_delete-Follows :
    (g k : Gvk) (u v : Text) → Follows g u (λ q. Tracker.on_delete v k q) (k == g && v == u)
on_delete-Follows g k u v = record {
  goes_on = λ q h.
      ground (
        arith,
        on_delete_lem q v k,
        seen-on_delete q v u k g,
        h,
        gvk_beq_iff k g,
        text_beq_iff v u,
      );
  triggers = λ q h e. ground (arith, on_delete_lem q v k, h, e, gvk_beq_iff k g, text_beq_iff v u);
}

module _ (live : ℕ → Bool) (c : LiveQueries) (i : ℕ) (g : Gvk) (u : Text) (l : live i ≡ true)
    (m : IsSingle c) (h : followed g u (lookup c.queries i) ≡ true) where
  -- The query goes on following the object or is triggered, and is triggered if the test holds.
  abbrev Heard : LiveQueries × List ℕ → Bool → Type 0
  Heard r b =
      ((followed g u (lookup r.0.queries i) || exists_in (nat_beq i) r.1) ≡ true)
      × (b ≡ true → exists_in (nat_beq i) r.1 ≡ true)

  unchanged : Heard (c, []) false
  unchanged = (ground (arith, h), λ e. absurd (ground (arith, e)))

  tell-Heard :
      (k : Option Gvk) (handle : Gvk → Handler) (b : Bool)
      → ((j : Gvk) → Follows g u (handle j) (j == g && b))
      → Heard (tell live k handle c) (of_kind g k && b)
  unfolding tell
  tell-Heard none handle b f = unchanged
  tell-Heard (some k) handle b f =
      broadcast-followed live (handle k) i g u (k == g && b) (f k) l c m h

  create-Heard : (k : Option Gvk) → Heard (tell live k (λ j q. (q, on_create j q)) c) false
  unfolding tell
  create-Heard none = unchanged
  create-Heard (some k) =
      broadcast-followed live (λ q. (q, on_create k q)) i g u false (on_create-Follows g k u) l c m
        h

  pub handle-Heard : (ch : Change) → Heard (handle live ch c) (touches g u ch)
  unfolding handle on_add LiveQueries.on_update on_delete
  handle-Heard (added none b) = unchanged
  handle-Heard (added (some o) true) = unchanged
  handle-Heard (added (some o) false) = create-Heard o.gvk
  handle-Heard (updated none n) = unchanged
  handle-Heard (updated (some o) none) = unchanged
  handle-Heard (updated (some o) (some n)) =
      tell-Heard o.gvk (λ k q. (q, on_update o.uid n.uid k q)) (o.uid == u || n.uid == u)
        (λ k. on_update-Follows g k u o.uid n.uid)
  handle-Heard (deleted none) = unchanged
  handle-Heard (deleted (some o)) =
      tell-Heard o.gvk (λ k q. Tracker.on_delete o.uid k q) (o.uid == u)
        (λ k. on_delete-Follows g k u o.uid)

pub read-followed :
    (found : Bool) (w : Calls) (i j : ℕ) (r : Read) (g : Gvk) (u : Text) (c : LiveQueries)
    → followed g u (lookup c.queries i) ≡ true
    → followed g u (lookup (read found w (some j) r c).0.queries i) ≡ true
read-followed found w i j r g u c h =
    read-holds found w i j r (λ q. seen q g u) c
      (λ v k q e. ground (arith, e, seen-track q v u k g))
      (λ k q e. ground (arith, e, seen-track_list q u k g)) h

-- A read of an object that succeeds follows it.
pub object-followed :
    (w : Calls) (i : ℕ) (u : Text) (k : Gvk) (c : LiveQueries)
    → (read true w (some i) (object u k) c).1 ≡ true
    → followed k u (lookup (read true w (some i) (object u k) c).0.queries i) ≡ true
unfolding read track_object
object-followed w i u k c h =
    let (d, p, q) = register_lem w i i k k (track u k) c in
    rw p (
      ground (
        arith,
        h,
        beq_refl i,
        beq_refl k,
        beq_refl u,
        seen-track (tracker_of (lookup c.queries i)) u u k k,
      ))
