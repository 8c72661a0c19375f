-- ===== src/Refresh/Listed.antt =====
-- A live query that has listed a kind through internal/cache/live_query.go hears of every change of
-- that kind, and its reader of internal/live_query/extension.go resolves again.
use xgql.Prelude.{
  ℕ, ◌≡◌, true, false, ◌||◌, some, List, arith, nat_eq, text_eq, lookup, nat_beq_iff, exists_in,
}
use xgql.Kube.{Gvk, gvk_eq, item_gvk}
use xgql.Cache.LiveQueries.{list, Calls, read}
use xgql.Refresh.{
  System, start_system, set, Change, live, with_query, with_pending, after_change, after_read, Seen,
  is_refresh, Step, Run, rest, step,
}
use xgql.Refresh.Step.{
  reads, changes, triggers, skips, rearms, gives_up, expires, notifies, wakes, ends, returns,
}
use xgql.Refresh.Trackers.{IsSingle, Step-IsSingle, Run-IsSingle, start-IsSingle, read-IsSingle}
use xgql.Refresh.Sound.{Run-AllSound, reached-AllSound}
use xgql.Refresh.Owed.{owed, Run-owed}
use xgql.Refresh.Covered.{
  covered, changed_kind, handle-covered, handle-told, read-covered, list-covered,
}

-- Only the end of a query takes from it a kind that it has listed.
Step-covered :
    {throttle : ℕ} {e : Seen} {s t : System} (i : ℕ) (g : Gvk)
    → Step throttle e s t
    → IsSingle s.cache
    → (s.queries i).done ≡ false
    → covered g (lookup s.cache.queries i) ≡ true
    → covered g (lookup t.cache.queries i) ≡ true
unfolding with_query with_pending after_change after_read live
Step-covered {s = s} i g (reads j found w r p q) m l h = read-covered found w i j r g s.cache h
Step-covered {s = s} i g (changes ch p) m l h =
    handle-covered _ s.cache i g (ground (arith, l)) m h ch
Step-covered i g (triggers j now ids p st) m l h = h
Step-covered i g (skips j ids p d) m l h = h
Step-covered i g (rearms j now p st) m l h = h
Step-covered i g (gives_up j p d) m l h = h
Step-covered i g (expires j now st) m l h = h
Step-covered i g (notifies j now p st) m l h = h
Step-covered i g (wakes j p c) m l h = h
Step-covered i g (ends j) m l h = h
Step-covered i g (returns j now d st) m l h = h

-- What is done stays done.
Step-done :
    {throttle : ℕ} {e : Seen} {s t : System} (i : ℕ)
    → Step throttle e s t
    → (t.queries i).done ≡ false
    → (s.queries i).done ≡ false
unfolding with_query with_pending after_change after_read set
Step-done i (reads j found w r p q) h = h
Step-done i (changes ch p) h = h
Step-done i (triggers j now ids p st) h = ground (arith, nat_beq_iff j i)
Step-done i (skips j ids p d) h = h
Step-done i (rearms j now p st) h = ground (arith, nat_beq_iff j i)
Step-done i (gives_up j p d) h = ground (arith, nat_beq_iff j i)
Step-done i (expires j now st) h = ground (arith, nat_beq_iff j i)
Step-done i (notifies j now p st) h = ground (arith, nat_beq_iff j i)
Step-done i (wakes j p c) h = ground (arith, nat_beq_iff j i)
Step-done i (ends j) h = ground (arith, nat_beq_iff j i)
Step-done i (returns j now d st) h = ground (arith, nat_beq_iff j i)

pub Run-done :
    {throttle : ℕ} {es : List Seen} {s t : System} (i : ℕ)
    → Run throttle s es t
    → (t.queries i).done ≡ false
    → (s.queries i).done ≡ false
Run-done i rest h = h
Run-done i (step st run) h = Step-done i st (Run-done i run h)

Run-covered :
    {throttle : ℕ} {es : List Seen} {s t : System} (i : ℕ) (g : Gvk)
    → Run throttle s es t
    → IsSingle s.cache
    → (t.queries i).done ≡ false
    → covered g (lookup s.cache.queries i) ≡ true
    → covered g (lookup t.cache.queries i) ≡ true
Run-covered i g rest m l h = h
Run-covered i g (step st run) m l h =
    Run-covered i g run (Step-IsSingle st m) l
      (Step-covered i g st m (Run-done i (step st run) l) h)

-- No change is lost. When a live query has listed a kind and a change of that kind comes, then, while
-- the query is not done, at any later time its reader has resolved again or the query owes a refresh:
-- it has still to be triggered, its timer is set, its loop sends, or it fired during the resolution.
pub listed_change-owed :
    {throttle : ℕ} {es fs hs : List Seen} {s t u : System} (i : ℕ) (w : Calls) (k : Gvk)
    (ch : Change)
    → Run throttle start_system es s
    → (read true w (some i) (list k) s.cache).1 ≡ true
    → Run throttle (after_read true w i (list k) s) fs t
    → (t.queries i).done ≡ false
    → changed_kind ch ≡ some (item_gvk k)
    → Run throttle (after_change ch t) hs u
    → (exists_in (is_refresh i) hs || owed i u) ≡ true
unfolding after_read after_change live
listed_change-owed {s = s} {t = t} i w k ch before ok between l e after =
    let m = Run-IsSingle before start-IsSingle in
    let n = read-IsSingle true w i (list k) s.cache m in
    let c = Run-covered i (item_gvk k) between n l (list-covered w i k s.cache ok) in
    let p =
      handle-told (live t) t.cache i (item_gvk k) (ground (arith, l)) (Run-IsSingle between n) c ch
        e in
    Run-owed i after (Run-AllSound between (reached-AllSound before)) (ground (arith, p))
