-- ===== src/Tests/Bolt.antt =====
-- Cleanups and reads of internal/cache/bbolt_cache.go with objects that are a UID, a name and a body.
use xgql.Prelude.{
  ℕ, ◌+◌, ◌≡◌, ◌≢◌, ◌⊎◌, refl, true, false, Option, none, some, List, [], ◌∷◌, stable, place,
  Reorders, swap, ◌++◌, Text, lit, text_eq, text_beq, text_less, text_ord, arith, All,
  if◌then◌else◌, nat_beq,
}
use xgql.Cache.Bolt.{
  Error, Result, ok, err, Bucket, Objects, Update, less, set_zero, write_all, update, cleanup,
  rehydrate_object,
}
use xgql.Cache.Bolt.Persist.{of_key, HasKeysOnce, written, stored, cleanup-stored}
use xgql.Cache.Bolt.Reads.{
  Zeroes, Passes, zeroed, rehydrate_object-cleanup, rehydrate_object-failed,
}
use xgql.Cache.Bolt.Transactions.{
  Db, Shared, unused, tx_once, drop, get_bucket, done, reads, gets, ends, cleans, Run, stop, more,
}
use xgql.Cache.Bolt.Transactions.Balance.{Run-open_txs}
use xgql.Cache.Bolt.Client.{with_bolt_caches, last_file, suffixes, with_bolt_caches-file}

record Pod : Type 0 where
  uid : Text
  name : Text
  body : ℕ

-- A body of 0 cannot be marshalled.
abbrev marshal : Pod → Option Pod
marshal p = if nat_beq p.body 0 then none else some p

abbrev pods : Objects Pod Pod ℕ
pods = record {
  name = λ p. p.name;
  uid = λ p. p.uid;
  set_uid = λ u p. record p { uid = u };
  set_zero_value = λ p. some (record { uid = []; name = []; body = 0 });
  copy = λ p. p;
  get_gvk = λ p. some 1;
  set_gvk = λ g p. p;
  marshal = marshal;
  unmarshal = λ v p. some v;
}

abbrev works : Update Pod
works = record { create = true; put = λ k v. true; commit = true }

abbrev web : Pod
web = record { uid = lit "a"; name = lit "web"; body = 7 }

abbrev broken : Pod
broken = record { uid = lit "b"; name = lit "broken"; body = 0 }

web-Zeroes : Zeroes pods web
web-Zeroes = record {
  zero_value = record { uid = []; name = []; body = 0 };
  zeroes = refl;
  has_no_name = refl;
  sets_uid = λ u. refl;
  keeps_name = λ u. refl;
}

web-Passes : Passes pods works web
web-Passes = record { value = web; marshals = refl; puts = refl; zero = web-Zeroes }

-- The state of the reads is the bucket that they find.
abbrev find : Bucket Pod → Bucket Pod × Result (Bucket Pod)
find b = (b, ok b)

abbrev leave : Pod → Bucket Pod → Bucket Pod
leave p b = b

abbrev both_pods : List Pod
both_pods = broken ∷ web ∷ []

abbrev whole : Pod
whole = record broken { body = 3 }

abbrev two_pods : List Pod
two_pods = whole ∷ web ∷ []

two_pods-HasKeysOnce : HasKeysOnce pods two_pods
unfolding text_beq
two_pods-HasKeysOnce = (refl, (refl, tt))

two_pods-Reorders : Reorders two_pods (stable (less pods) two_pods)
unfolding stable place less text_less
two_pods-Reorders = swap whole web []

cleanup-stored_example :
    let c = cleanup pods stable works two_pods none in
    ((c.error ≡ none)
      × (stored c.bucket (lit "b")
          ≡ written pods (of_key pods (lit "b") two_pods) (stored none (lit "b"))))
    ⊎ ((c.error ≢ none) × (c.bucket ≡ none))
cleanup-stored_example =
    cleanup-stored pods stable works (lit "b") two_pods none two_pods-HasKeysOnce two_pods-Reorders

cleanup_ok : (cleanup pods stable works two_pods none).error ≡ none
unfolding cleanup write_all set_zero stable place less text_less update
cleanup_ok = refl

rehydrate_object-cleanup_example :
    (rehydrate_object pods leave find false
      (zeroed pods web)
      (cleanup pods stable works two_pods none).bucket).1
    ≡ ok web
unfolding text_beq
rehydrate_object-cleanup_example =
    rehydrate_object-cleanup pods leave find stable works two_pods none web web
      (cleanup pods stable works two_pods none).bucket two_pods-HasKeysOnce two_pods-Reorders refl
      web-Zeroes (refl, refl) cleanup_ok refl

both_pods-HasKeysOnce : HasKeysOnce pods both_pods
unfolding text_beq
both_pods-HasKeysOnce = (refl, (refl, tt))

both_pods-sorted : stable (less pods) both_pods ≡ web ∷ broken ∷ []
unfolding stable place less text_less
both_pods-sorted = refl

rehydrate_object-failed_example :
    let c = cleanup pods stable works both_pods none in
    (c.error ≡ some Error.object_marshal)
    × (c.bucket ≡ none)
    × (c.objects ≡ zeroed pods web ∷ broken ∷ [])
    × (e : Error) × ((rehydrate_object pods leave find false (zeroed pods web) none).1 ≡ err e)
unfolding text_beq
rehydrate_object-failed_example =
    rehydrate_object-failed pods leave find stable works both_pods (web ∷ []) [] broken none
      both_pods-HasKeysOnce both_pods-sorted (web-Passes, tt) refl refl web none refl refl refl

abbrev db : Db Pod
db = record { bucket = some []; open_txs = 4 ∷ []; begun = 5 }

-- Two readers, one of which needs the bucket, and a cleanup between them.
abbrev after : Shared Pod × Db Pod
after = (
  record { used = 0; tx = none; b = none },
  record { bucket = some ((lit "a", web) ∷ []); open_txs = 4 ∷ []; begun = 6 },
)

readers : Run (unused, db) after
unfolding unused tx_once get_bucket done drop
readers =
    more (more (more (more stop reads) (gets true (omega arith))) (cleans ((lit "a", web) ∷ [])))
      (ends (omega arith))

Run-open_txs_example : after.1.open_txs ≡ db.open_txs
Run-open_txs_example = Run-open_txs db {d = after} (λ h. ground arith) readers refl

abbrev cleaned : Shared Pod × Db Pod
cleaned = (
  record { used = 1; tx = some 5; b = some [] },
  record db { bucket = some ((lit "a", web) ∷ []) },
)

-- Numbers below 10 in decimal.
abbrev digit : ℕ → Text
digit n = (48 + n) ∷ []

with_bolt_caches-file_example :
    (last_file (lit "xgql") (with_bolt_caches digit (lit "xgql") (1 ∷ 2 ∷ []))
      ≡ lit "xgql" ++ suffixes digit (1 ∷ 2 ∷ []))
    × All (λ c. c.deep_copy ≡ false) (with_bolt_caches digit (lit "xgql") (1 ∷ 2 ∷ []))
with_bolt_caches-file_example = with_bolt_caches-file digit (lit "xgql") (1 ∷ 2 ∷ [])
