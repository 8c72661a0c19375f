-- ===== src/Refresh/Reads.antt =====
-- A live query that has read an object through internal/cache/live_query.go hears of its next change.
use xgql.Prelude.{
  ℕ, ◌≡◌, inl, inr, true, false, ◌||◌, some, List, [], arith, nat_eq, Text, lookup, Bool-cases,
  exists_in,
}
use xgql.Kube.{Gvk}
use xgql.Cache.LiveQueries.{object, Calls, read}
use xgql.Refresh.{
  System, start_system, Change, live, with_query, with_pending, after_change, after_read, Seen,
  silent, is_refresh, Step, Run, rest, step,
}
use xgql.Refresh.Step.{
  reads, changes, triggers, skips, rearms, gives_up, expires, notifies, wakes, ends, returns,
}
use xgql.Refresh.Trackers.{IsSingle, Step-IsSingle, Run-IsSingle, start-IsSingle, read-IsSingle}
use xgql.Refresh.Sound.{AllSound, Step-AllSound, Run-AllSound, reached-AllSound}
use xgql.Refresh.Owed.{owed, Step-owed, Run-owed}
use xgql.Refresh.Listed.{Run-done}
use xgql.Refresh.Followed.{followed, touches, handle-Heard, read-followed, object-followed}

module _ {throttle : ℕ} (i : ℕ) (g : Gvk) (u : Text) where
  -- A step goes on following the object, or leaves a debt.
  Step-followed :
      {e : Seen} {s t : System}
      → Step throttle e s t
      → IsSingle s.cache
      → (s.queries i).done ≡ false
      → followed g u (lookup s.cache.queries i) ≡ true
      → (followed g u (lookup t.cache.queries i) || owed i t) ≡ true
  unfolding with_query with_pending after_change after_read live
  Step-followed {s = s} (reads j found w r p q) m l h =
      ground (arith, read-followed found w i j r g u s.cache h)
  Step-followed {s = s} (changes ch p) m l h =
      ground (arith, (handle-Heard (live s) s.cache i g u (ground (arith, l)) m h ch).0)
  Step-followed (triggers j now ids p st) m l h = ground (arith, h)
  Step-followed (skips j ids p d) m l h = ground (arith, h)
  Step-followed (rearms j now p st) m l h = ground (arith, h)
  Step-followed (gives_up j p d) m l h = ground (arith, h)
  Step-followed (expires j now st) m l h = ground (arith, h)
  Step-followed (notifies j now p st) m l h = ground (arith, h)
  Step-followed (wakes j p c) m l h = ground (arith, h)
  Step-followed (ends j) m l h = ground (arith, h)
  Step-followed (returns j now d st) m l h = ground (arith, h)

  Run-followed :
      {es : List Seen} {s t : System}
      → Run throttle s es t
      → IsSingle s.cache
      → AllSound s.queries
      → (t.queries i).done ≡ false
      → followed g u (lookup s.cache.queries i) ≡ true
      → (exists_in (is_refresh i) es || (followed g u (lookup t.cache.queries i) || owed i t))
        ≡ true
  unfolding exists_in
  Run-followed rest m a l h = ground (arith, h)
  Run-followed {s = s} (step {t = t} st run) m a l h =
      elim (Bool-cases (followed g u (lookup t.cache.queries i))) [
        | inl p ↦ ground (arith, Run-followed run (Step-IsSingle st m) (Step-AllSound st a) l p)
        | inr p ↦
            let o = Step-followed st m (Run-done i (step st run) l) h in
            ground (arith, Run-owed i run (Step-AllSound st a) (ground (arith, p, o)))
      ]

-- After a change of the object the query is owed a refresh, whether it still followed it or not.
after_change-owed :
    (throttle i : ℕ) (g : Gvk) (u : Text) (ch : Change) (t : System)
    → IsSingle t.cache
    → AllSound t.queries
    → (t.queries i).done ≡ false
    → t.pending ≡ []
    → touches g u ch ≡ true
    → (followed g u (lookup t.cache.queries i) || owed i t) ≡ true
    → owed i (after_change ch t) ≡ true
unfolding after_change live is_refresh
after_change-owed throttle i g u ch t m a l p e h =
    elim (Bool-cases (followed g u (lookup t.cache.queries i))) [
      | inl f ↦ ground (arith, (handle-Heard (live t) t.cache i g u (ground (arith, l)) m f ch).1 e)
      | inr f ↦
          let st : Step throttle silent t (after_change ch t) = changes ch p in
          ground (arith, Step-owed i st a (ground (arith, f, h)))
    ]

-- No change of an object that was read is lost. When a live query has read an object and is not done,
-- and later the object is updated or deleted, then at any time after that its reader has resolved again
-- since the read, or the query owes a refresh: it has still to be triggered, its timer is set, its loop
-- sends, or it fired during the resolution.
pub read_change-owed :
    {throttle : ℕ} {es fs hs : List Seen} {s t v : System} (i : ℕ) (w : Calls) (k : Gvk) (u : Text)
    (ch : Change)
    → Run throttle start_system es s
    → (read true w (some i) (object u k) s.cache).1 ≡ true
    → Run throttle (after_read true w i (object u k) s) fs t
    → (t.queries i).done ≡ false
    → t.pending ≡ []
    → touches k u ch ≡ true
    → Run throttle (after_change ch t) hs v
    → (exists_in (is_refresh i) fs || (exists_in (is_refresh i) hs || owed i v)) ≡ true
unfolding after_read after_change
read_change-owed {throttle} {fs = fs} {s = s} {t = t} i w k u ch before ok between l p e after =
    let m = read-IsSingle true w i (object u k) s.cache (Run-IsSingle before start-IsSingle) in
    let a = reached-AllSound before in
    let q = Run-followed i k u between m a l (object-followed w i u k s.cache ok) in
    elim (Bool-cases (exists_in (is_refresh i) fs)) [
      | inl r ↦ ground (arith, r)
      | inr r ↦
          let b = Run-AllSound between a in
          let o =
            after_change-owed throttle i k u ch t (Run-IsSingle between m) b l p e
              (ground (arith, r, q)) in
          ground (arith, r, Run-owed i after b o)
    ]
