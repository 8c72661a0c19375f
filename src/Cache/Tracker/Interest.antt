-- ===== src/Cache/Tracker/Interest.antt =====
-- A tracker of internal/cache/live_query.go against the interest that it stands for.
use xgql.Prelude.{
  ◌≡◌, refl, ap, Bool, true, false, ◌&&◌, ◌||◌, not, Option, none, some, List, [], ◌∷◌, Text,
  lookup, lookup-insert, ◌==◌, text_eq, arith,
}
use xgql.Kube.{Gvk, gvk_eq, gvk_beq_iff}
use xgql.Cache.Set
use xgql.Cache.Set.{contains-add, contains-remove}
use xgql.Cache.Tracker.{Tracker, new, track, track_list, on_create, on_update, on_delete}

-- The kinds of interest as a whole, and the single objects of interest.
pub record Interest : Type 0 where
  pub whole : Gvk → Bool
  pub single : Gvk → Text → Bool

abbrev pub no_interest : Interest
no_interest = record { whole = λ g. false; single = λ g u. false }

-- The calls of a tracker; the last three are events.
pub data Op : Type 0 where
  tracked : Text → Gvk → Op
  listed : Gvk → Op
  created : Gvk → Op
  updated : Text → Text → Gvk → Op
  deleted : Text → Gvk → Op

unfoldable pub run : Tracker → List Op → List Bool
run q [] = []
run q (tracked u g ∷ ops) = run (track u g q) ops
run q (listed g ∷ ops) = run (track_list g q) ops
run q (created g ∷ ops) = on_create g q ∷ run q ops
run q (updated o n g ∷ ops) = on_update o n g q ∷ run q ops
run q (deleted u g ∷ ops) = (on_delete u g q).1 ∷ run (on_delete u g q).0 ops

-- A read of an object or of a list adds to the interest; only the deletion of an object ends it.
unfoldable pub expected : Interest → List Op → List Bool
expected i [] = []
expected i (tracked u g ∷ ops) =
    expected (record i { single = λ h v. i.single h v || (g == h && u == v) }) ops
expected i (listed g ∷ ops) = expected (record i { whole = λ h. i.whole h || g == h }) ops
expected i (created g ∷ ops) = i.whole g ∷ expected i ops
expected i (updated o n g ∷ ops) = (i.whole g || (i.single g o || i.single g n)) ∷ expected i ops
expected i (deleted u g ∷ ops) =
    (i.whole g || i.single g u)
    ∷ expected (record i { single = λ h v. i.single h v && not (g == h && u == v) }) ops

-- The whole kind is of interest; the object is, of whatever else of its kind is.
pub whole : Tracker → Gvk → Bool
whole q g = elim (lookup q g) [ none ↦ false | some none ↦ true | some (some uids) ↦ false ]

pub single : Tracker → Gvk → Text → Bool
single q g u = elim (lookup q g) [
  | none ↦ false
  | some none ↦ false
  | some (some uids) ↦ Set.contains uids u
]

-- How a kind is tracked.
data View (q : Tracker) (g : Gvk) : Type 0 where
  untracked : lookup q g ≡ none → View q g
  as_whole : lookup q g ≡ some none → View q g
  by_uids : (uids : List Text) → lookup q g ≡ some (some uids) → View q g

view : (q : Tracker) (g : Gvk) → View q g
view q g = of (lookup q g) refl
  where
    of : (o : Option (Option (List Text))) → lookup q g ≡ o → View q g
    of none p = untracked p
    of (some none) p = as_whole p
    of (some (some uids)) p = by_uids uids p

abbrev pub seen : Tracker → Gvk → Text → Bool
seen q g u = whole q g || single q g u

pub whole-track : (q : Tracker) (u : Text) (g h : Gvk) → whole (track u g q) h ≡ whole q h
unfolding whole track
whole-track q u g h = elim (view q g) [
  | untracked p ↦ ground (arith, p, lookup-insert q g h (some (u ∷ [])), gvk_beq_iff g h)
  | as_whole p ↦ ground (arith, p)
  | by_uids uids p ↦
      ground (arith, p, lookup-insert q g h (some (Set.add uids u).0), gvk_beq_iff g h)
]

contains-one : (u v : Text) → Set.contains (u ∷ []) v ≡ (u == v)
unfolding Set.contains
contains-one u v = ground arith

pub seen-track :
    (q : Tracker) (u v : Text) (g h : Gvk)
    → seen (track u g q) h v ≡ (seen q h v || (g == h && u == v))
unfolding whole single track
seen-track q u v g h = elim (view q g) [
  | untracked p ↦
      ground (arith, p, lookup-insert q g h (some (u ∷ [])), gvk_beq_iff g h, contains-one u v)
  | as_whole p ↦ ground (arith, p, gvk_beq_iff g h)
  | by_uids uids p ↦ ground (
    arith,
    p,
    lookup-insert q g h (some (Set.add uids u).0),
    gvk_beq_iff g h,
    contains-add uids u v,
  )
]

pub whole-track_list : (q : Tracker) (g h : Gvk) → whole (track_list g q) h ≡ (whole q h || g == h)
unfolding whole track_list
whole-track_list q g h = ground (arith, lookup-insert q g h none, gvk_beq_iff g h)

pub seen-track_list :
    (q : Tracker) (v : Text) (g h : Gvk) → seen (track_list g q) h v ≡ (seen q h v || g == h)
unfolding whole single track_list
seen-track_list q v g h = ground (arith, lookup-insert q g h none, gvk_beq_iff g h)

pub whole-on_delete : (q : Tracker) (u : Text) (g h : Gvk) → whole (on_delete u g q).0 h ≡ whole q h
unfolding whole on_delete
whole-on_delete q u g h = elim (view q g) [
  | untracked p ↦ ground (arith, p)
  | as_whole p ↦ ground (arith, p)
  | by_uids uids p ↦
      ground (arith, p, lookup-insert q g h (some (Set.remove uids u).0), gvk_beq_iff g h)
]

pub seen-on_delete :
    (q : Tracker) (u v : Text) (g h : Gvk)
    → seen (on_delete u g q).0 h v ≡ (whole q h || (single q h v && not (g == h && u == v)))
unfolding whole single on_delete
seen-on_delete q u v g h = elim (view q g) [
  | untracked p ↦ ground (arith, p, gvk_beq_iff g h)
  | as_whole p ↦ ground (arith, p, gvk_beq_iff g h)
  | by_uids uids p ↦ ground (
    arith,
    p,
    lookup-insert q g h (some (Set.remove uids u).0),
    gvk_beq_iff g h,
    contains-remove uids u v,
  )
]

pub on_create_lem : (q : Tracker) (g : Gvk) → on_create g q ≡ whole q g
unfolding on_create whole
on_create_lem q g = refl

pub on_update_lem :
    (q : Tracker) (o n : Text) (g : Gvk) → on_update o n g q ≡ (seen q g o || seen q g n)
unfolding on_update whole single
on_update_lem q o n g = ground arith

pub on_delete_lem : (q : Tracker) (u : Text) (g : Gvk) → (on_delete u g q).1 ≡ seen q g u
unfolding on_delete whole single
on_delete_lem q u g = elim (view q g) [
  | untracked p ↦ ground (arith, p)
  | as_whole p ↦ ground (arith, p)
  | by_uids uids p ↦ ground (arith, p, contains-remove uids u u)
]

-- Single objects of a kind that is of interest as a whole are not kept.
record Stands (q : Tracker) (i : Interest) : Type 0 where
  wholes : (g : Gvk) → whole q g ≡ i.whole g
  singles : (g : Gvk) (u : Text) → seen q g u ≡ (i.whole g || i.single g u)

run-expected :
    (ops : List Op) (q : Tracker) (i : Interest) → Stands q i → run q ops ≡ expected i ops
unfolding run expected
run-expected [] q i s = refl
run-expected (tracked u g ∷ ops) q i s =
    run-expected ops (track u g q) (record i { single = λ h v. i.single h v || (g == h && u == v) })
      (record {
        wholes = λ h. ground (arith, whole-track q u g h, s.wholes h);
        singles = λ h v. ground (arith, seen-track q u v g h, s.singles h v);
      })
run-expected (listed g ∷ ops) q i s =
    run-expected ops (track_list g q) (record i { whole = λ h. i.whole h || g == h })
      (record {
        wholes = λ h. ground (arith, whole-track_list q g h, s.wholes h);
        singles = λ h v. ground (arith, seen-track_list q v g h, s.singles h v);
      })
run-expected (created g ∷ ops) q i s =
    rw (on_create_lem q g, s.wholes g) (ap (λ l. i.whole g ∷ l) (run-expected ops q i s))
run-expected (updated o n g ∷ ops) q i s =
    let p : on_update o n g q ≡ (i.whole g || (i.single g o || i.single g n)) =
      ground (arith, on_update_lem q o n g, s.singles g o, s.singles g n) in
    rw p (ap (λ l. (i.whole g || (i.single g o || i.single g n)) ∷ l) (run-expected ops q i s))
run-expected (deleted u g ∷ ops) q i s =
    rw (on_delete_lem q u g, s.singles g u)
      (ap (λ l. (i.whole g || i.single g u) ∷ l)
        (run-expected ops (on_delete u g q).0
          (record i { single = λ h v. i.single h v && not (g == h && u == v) })
          (record {
            wholes = λ h. ground (arith, whole-on_delete q u g h, s.wholes h);
            singles = λ h v. ground (arith, seen-on_delete q u v g h, s.singles h v, s.wholes h);
          })))

-- Over any sequence of reads and events, a live query is triggered by exactly the events of what it
-- has read: by creations in the kinds that it listed, by updates of what it listed or read, and by
-- deletions of these, a single object's once until it is read again.
pub run-eq-expected : (ops : List Op) → run new ops ≡ expected no_interest ops
unfolding new lookup whole single
run-eq-expected ops =
    run-expected ops new no_interest (record { wholes = λ g. refl; singles = λ g u. refl })
