-- ===== src/Refresh/Covered.antt =====
-- Reads and handlers of internal/cache/live_query.go at a query that has listed a kind.
use xgql.Prelude.{
  ℕ, ◌≡◌, refl, Bool, true, false, Option, none, some, arith, nat_eq, text_eq, lookup, beq_refl,
  if◌then◌else◌, nat_beq, exists_in,
}
use xgql.Kube.{Gvk, gvk_eq, item_gvk}
use xgql.Cache.Tracker.{Tracker, track, track_list, on_create, on_update}
use xgql.Cache.Tracker
use xgql.Cache.Tracker.Interest.{
  whole, whole-track, whole-track_list, whole-on_delete, on_create_lem, on_update_lem,
  on_delete_lem,
}
use xgql.Cache.LiveQueries.{
  LiveQueries, Handler, Object, tell, on_add, on_delete, Read, object, list, unknown, Calls,
  tracker_of, register, track_object, read,
}
use xgql.Cache.LiveQueries
use xgql.Cache.LiveQueries.Broadcast.{kept, told, broadcast_lem}
use xgql.Cache.LiveQueries.Tracking.{register_lem}
use xgql.Refresh.{Change, added, updated, deleted, handle, live}
use xgql.Refresh.Trackers.{IsSingle, holds, read-holds}

-- The query has a tracker, and it tracks the kind as a whole.
abbrev pub covered : Gvk → Option Tracker → Bool
covered g o = holds (λ q. whole q g) o

-- The kind of the changed object, when the handlers pass the change on.
abbrev pub changed_kind : Change → Option Gvk
changed_kind (added none l) = none
changed_kind (added (some o) l) = if l then none else o.gvk
changed_kind (updated (some o) (some n)) = o.gvk
changed_kind (updated _ _) = none
changed_kind (deleted none) = none
changed_kind (deleted (some o)) = o.gvk

-- Whether the query of a tracker is triggered by a change of a kind.
kept-covered :
    (live : ℕ → Bool) (handle : Handler) (i : ℕ) (g : Gvk) (o : Option Tracker)
    → ((q : Tracker) → whole (handle q).0 g ≡ whole q g)
    → live i ≡ true
    → covered g o ≡ true
    → covered g (kept live handle i o) ≡ true
kept-covered live handle i g none f l h = h
kept-covered live handle i g (some q) f l h = ground (arith, f q, l, h)

told-covered :
    (live : ℕ → Bool) (handle : Handler) (i : ℕ) (g : Gvk) (o : Option Tracker)
    → ((q : Tracker) → whole q g ≡ true → (handle q).1 ≡ true)
    → live i ≡ true
    → covered g o ≡ true
    → told live handle i o ≡ true
told-covered live handle i g none f l h = absurd (ground (arith, h))
told-covered live handle i g (some q) f l h = ground (arith, f q h, l)

-- A handler never changes which kinds are tracked as a whole.
abbrev Keeps : (Gvk → Handler) → Type 0
Keeps handle = (k : Gvk) (q : Tracker) (g : Gvk) → whole (handle k q).0 g ≡ whole q g

abbrev Hears : (Gvk → Handler) → Type 0
Hears handle = (k : Gvk) (q : Tracker) → whole q k ≡ true → (handle k q).1 ≡ true

module _ (live : ℕ → Bool) (c : LiveQueries) (i : ℕ) (g : Gvk) (l : live i ≡ true) (m : IsSingle c)
    (h : covered g (lookup c.queries i) ≡ true) where
  tell-covered :
      (k : Option Gvk) (handle : Gvk → Handler)
      → Keeps handle
      → covered g (lookup (tell live k handle c).0.queries i) ≡ true
  unfolding tell
  tell-covered none handle f = h
  tell-covered (some k) handle f =
      rw ((broadcast_lem live (handle k) c.queries i m).0)
        (kept-covered live (handle k) i g (lookup c.queries i) (λ q. f k q g) l h)

  tell-told :
      (handle : Gvk → Handler)
      → Hears handle
      → exists_in (nat_beq i) (tell live (some g) handle c).1 ≡ true
  unfolding tell
  tell-told handle f =
      rw ((broadcast_lem live (handle g) c.queries i m).1)
        (told-covered live (handle g) i g (lookup c.queries i) (f g) l h)

  pub handle-covered : (ch : Change) → covered g (lookup (handle live ch c).0.queries i) ≡ true
  unfolding handle on_add LiveQueries.on_update on_delete
  handle-covered (added none b) = h
  handle-covered (added (some o) true) = h
  handle-covered (added (some o) false) = tell-covered o.gvk _ (λ k q g. refl)
  handle-covered (updated none n) = h
  handle-covered (updated (some o) none) = h
  handle-covered (updated (some o) (some n)) = tell-covered o.gvk _ (λ k q g. refl)
  handle-covered (deleted none) = h
  handle-covered (deleted (some o)) = tell-covered o.gvk _ (λ k q g. whole-on_delete q o.uid k g)

  pub handle-told :
      (ch : Change) → changed_kind ch ≡ some g → exists_in (nat_beq i) (handle live ch c).1 ≡ true
  unfolding handle on_add LiveQueries.on_update on_delete
  handle-told (added none b) e = absurd (ground (arith, e))
  handle-told (added (some o) true) e = absurd (ground (arith, e))
  handle-told (added (some o) false) e =
      rw e (tell-told (λ k q. (q, on_create k q)) (λ k q w. ground (arith, w, on_create_lem q k)))
  handle-told (updated none n) e = absurd (ground (arith, e))
  handle-told (updated (some o) none) e = absurd (ground (arith, e))
  handle-told (updated (some o) (some n)) e = rw e (
      tell-told (λ k q. (q, on_update o.uid n.uid k q))
        (λ k q w. ground (arith, w, on_update_lem q o.uid n.uid k)))
  handle-told (deleted none) e = absurd (ground (arith, e))
  handle-told (deleted (some o)) e = rw e (
      tell-told (λ k. Tracker.on_delete o.uid k)
        (λ k q w. ground (arith, w, on_delete_lem q o.uid k)))

pub read-covered :
    (found : Bool) (w : Calls) (i j : ℕ) (r : Read) (g : Gvk) (c : LiveQueries)
    → covered g (lookup c.queries i) ≡ true
    → covered g (lookup (read found w (some j) r c).0.queries i) ≡ true
read-covered found w i j r g c h =
    read-holds found w i j r (λ q. whole q g) c (λ u k q e. ground (arith, e, whole-track q u k g))
      (λ k q e. ground (arith, e, whole-track_list q k g)) h

-- A read of a list that succeeds tracks the kind as a whole.
pub list-covered :
    (w : Calls) (i : ℕ) (k : Gvk) (c : LiveQueries)
    → (read true w (some i) (list k) c).1 ≡ true
    → covered (item_gvk k) (lookup (read true w (some i) (list k) c).0.queries i) ≡ true
unfolding read track_object
list-covered w i k c h =
    let (d, p, q) = register_lem w i i (item_gvk k) (item_gvk k) (track_list (item_gvk k)) c in
    rw p (
      ground (
        arith,
        h,
        beq_refl i,
        beq_refl (item_gvk k),
        whole-track_list (tracker_of (lookup c.queries i)) (item_gvk k) (item_gvk k),
      ))
