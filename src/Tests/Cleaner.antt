-- ===== src/Tests/Cleaner.antt =====
-- Runs of internal/cache/cleaner.go with objects that are their own keys.
use xgql.Prelude.{
  ◌+◌, ◌≡◌, refl, Bool, true, none, List, [], ◌∷◌, Text, lit, text_eq, text_ord, text_beq,
  text_less, lookup, insert, delete, search, map, arith,
}
use xgql.Cache.Cleaner
use xgql.Cache.Cleaner.{
  Exp, Ref, Cleaner, new, add, not_before, test_at, is_scheduled, insert_at, is_newest, next_ref,
  claim, collect_loop,
}
use xgql.Cache.Cleaner.Deadlines.{Op, schedule, collect, of_key, cleaned}
use xgql.Cache.Cleaner.Histories.{run, run-eq-cleaned}
use xgql.Cache.Cleaner.Loop
use xgql.Cache.Cleaner.Loop.{Loop, Phase}
use xgql.Cache.Cleaner.Loop.Wakeup.{IsStuck, stop, missed_signal}

abbrev own_key : Text → Text
own_key t = t

abbrev a : Text
a = lit "a"

abbrev b : Text
b = lit "b"

abbrev history : List (Op Text)
history = schedule a 60 ∷ schedule b 60 ∷ schedule a 70 ∷ collect 65 ∷ collect 70 ∷ collect 99 ∷ []

history_runs : run own_key new history ≡ (b ∷ []) ∷ (a ∷ []) ∷ [] ∷ []
unfolding run Cleaner.collect collect_loop claim add new not_before test_at is_scheduled insert_at
    is_newest next_ref search lookup insert delete text_beq text_less
history_runs = refl

run-eq-cleaned_example :
    map (of_key own_key a) (run own_key new history) ≡ cleaned own_key a none history
run-eq-cleaned_example = run-eq-cleaned own_key a history (omega arith) (omega arith)

-- The loop has just collected the only object.
abbrev collected_all : Loop Text Text
collected_all = record {
  cleaner = record { exps = []; refs = [] };
  wakeup = none;
  phase = Phase.cleaning (a ∷ []) none;
}

abbrev accept : List Text → Bool
accept objs = true

missed_signal_example : IsStuck (60 + 60) (
    Loop.cleaned own_key accept 1 61
      (a ∷ [])
      none
      (Loop.schedule own_key accept 1 60 b 60 collected_all))
missed_signal_example =
    missed_signal own_key accept 1 60 61 60 b (a ∷ []) collected_all
      (Loop.cleaned own_key accept 1 61 (a ∷ []) none
        (Loop.schedule own_key accept 1 60 b 60 collected_all))
      refl refl refl stop
