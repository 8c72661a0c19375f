-- ===== src/Tests/Refresh.antt =====
-- A run of a live query through internal/cache/live_query.go and internal/live_query.
use xgql.Prelude.{
  ◌≡◌, refl, true, false, ◌||◌, some, [], ◌∷◌, lit, lookup, insert, delete, text_eq, text_beq,
  nat_eq, exists_in,
}
use xgql.Kube.{Gvk, gvk_eq, gvk_beq, item_gvk, trim_list}
use xgql.Cache.Set
use xgql.Cache.Tracker
use xgql.Cache.Tracker.{track_list}
use xgql.Cache.LiveQueries
use xgql.Cache.LiveQueries.{
  Calls, Object, tracker_of, handle_kind, register, track_object, read, list, object, tell,
  broadcast, on_delete,
}
use xgql.Live.Debounce.{Action, start, receive, receives}
use xgql.Refresh.{
  System, start_query, start_system, Change, deleted, handle, live, with_query, with_pending,
  after_change, after_read, silent, is_refresh, Run, rest, step,
}
use xgql.Refresh.Step.{reads, changes, triggers}
use xgql.Refresh.Sound.{AllSound, reached-AllSound}
use xgql.Refresh.Owed.{owed}
use xgql.Refresh.Reads.{read_change-owed}
use xgql.Refresh.Listed.{listed_change-owed}
use xgql.Refresh.Drain.{Refreshable, owed-Refreshable}

abbrev pods : Gvk
pods = record { group = []; version = lit "v1"; kind = lit "PodList" }

abbrev works : Calls
works = record { informer = true; add_handler = true }

abbrev deletion : Change
deletion = deleted (some (record { uid = lit "u"; gvk = some (item_gvk pods) }))

-- Query 1 lists the pods, and one of them goes.
abbrev listed : System
listed = after_read true works 1 (list pods) start_system

abbrev changed : System
changed = after_change deletion listed

first_steps : Run 100 start_system (silent ∷ silent ∷ []) changed
unfolding start_system start_query after_read read track_object register handle_kind tracker_of
    Set.contains Set.add LiveQueries.new lookup insert
first_steps = step (reads 1 true works (list pods) refl refl) (step (changes deletion refl) rest)

listed-done : (read true works (some 1) (list pods) start_system.cache).1 ≡ true
unfolding start_system read track_object register handle_kind tracker_of Set.contains Set.add
    LiveQueries.new lookup insert
listed-done = refl

listed-live : (listed.queries 1).done ≡ false
unfolding start_system start_query after_read read
listed-live = refl

changed-owed : owed 1 changed ≡ true
unfolding start_system start_query after_read after_change handle on_delete tell broadcast live
    Tracker.on_delete Tracker.new track_list read track_object register handle_kind tracker_of
    Set.contains Set.add LiveQueries.new lookup insert delete gvk_beq text_beq item_gvk trim_list
    exists_in
changed-owed = refl

abbrev triggered : System
triggered = with_pending [] (
    with_query 1
      (record (changed.queries 1) { loop = receive 100 5 Action.fire (changed.queries 1).loop })
      changed)

after_steps : Run 100 changed (silent ∷ []) triggered
unfolding start_system start_query start after_read after_change handle on_delete tell broadcast
    live Tracker.on_delete Tracker.new track_list read track_object register handle_kind tracker_of
    Set.contains Set.add LiveQueries.new lookup insert delete gvk_beq text_beq item_gvk trim_list
    exists_in
after_steps = step (triggers 1 5 [] refl (receives 5 Action.fire refl)) rest

reached-AllSound_example : AllSound changed.queries
reached-AllSound_example = reached-AllSound first_steps

listed_change-owed_example : (exists_in (is_refresh 1) (silent ∷ []) || owed 1 triggered) ≡ true
listed_change-owed_example =
    listed_change-owed 1 works pods deletion rest listed-done rest listed-live refl after_steps

owed-Refreshable_example : Refreshable 100 1 changed
unfolding after_change after_read
owed-Refreshable_example = owed-Refreshable 1 first_steps listed-live changed-owed

-- Query 1 reads one pod, which goes.
abbrev read_one : System
read_one = after_read true works 1 (object (lit "u") (item_gvk pods)) start_system

one-done : (read true works (some 1) (object (lit "u") (item_gvk pods)) start_system.cache).1 ≡ true
unfolding start_system read track_object register handle_kind tracker_of Set.contains Set.add
    LiveQueries.new lookup insert
one-done = refl

one-live : (read_one.queries 1).done ≡ false
unfolding start_system start_query after_read read
one-live = refl

read_change-owed_example :
    (exists_in (is_refresh 1) []
      || (exists_in (is_refresh 1) [] || owed 1 (after_change deletion read_one)))
    ≡ true
unfolding start_system after_read gvk_beq text_beq item_gvk trim_list
read_change-owed_example =
    read_change-owed {throttle = 100} 1 works (item_gvk pods) (lit "u") deletion rest one-done rest
      one-live refl refl rest
