-- ===== src/Cache/Bolt/Client.antt =====
-- The calls of the BBoltCache of internal/cache/bbolt_cache.go as its clients see them, and
-- WithBBoltCache, which makes one for each credentials; that the database opens and the underlying
-- cache is made is taken for granted there.
use mathlib.Core.List.{append_assoc, append-nil}
use xgql.Prelude.{
  ℕ, ◌≡◌, refl, Bool, true, false, Option, none, some, List, [], ◌∷◌, ◌++◌, Text, is_empty,
  if◌then◌else◌, not, All, ◌∙◌, sym,
}
use xgql.Cache.Bolt.{
  Error, Result, ok, err, Bucket, Objects, rehydrate_object, rehydrate_object_list, copies,
}

-- What reads leave of an error of their own and one of `done`: either makes them fail.
unfoldable pub joined : {A S : Type 0} → Result A → S × Bool → S × Result A
joined r (s, true) = (s, r)
joined r (s, false) = (s, err Error.tx_rollback)

module _ {T V G S : Type 0} (os : Objects T V G) (schedule : T → S → S)
    (get_bucket : S → S × Result (Bucket V)) (done : S → S × Bool) where
  -- Get: `found` is what the underlying cache gives.
  unfoldable pub get : Bool → Option T → S → S × Result T
  get deep_copy none s = (s, err Error.object_get)
  get deep_copy (some x) s =
      let (s', r) = rehydrate_object os schedule get_bucket deep_copy x s in joined r (done s')

  -- List: an empty list needs no transaction.
  unfoldable pub list : Bool → Option Bool → Option G → Option (List T) → S → S × Result (List T)
  list deep_copy disabled g none s = (s, err Error.object_get)
  list deep_copy disabled g (some xs) s =
      let (s', r) =
        rehydrate_object_list os schedule get_bucket (copies deep_copy disabled) g xs s in
      if is_empty xs then (s, ok []) else joined r (done s')

-- What `Start` does to `running`: it fails in a cache that runs.
unfoldable pub start : Bool → Bool × Bool
start running = (true, not running)

-- putObject, the transform of every object that enters the cache; `none` is what is no object.
unfoldable pub put_object : {T S : Type 0} → (T → S → S) → Bool → Option T → S → S × Bool
put_object schedule running none s = (s, running)
put_object schedule running (some x) s = if running then (schedule x s, true) else (s, false)

-- wrapCacheTranform
unfoldable pub wrap_transform : {T : Type 0} → Option (T → Option T) → (T → Option T) → T → Option T
wrap_transform none next x = next x
wrap_transform (some prev) next x = elim (next x) [ none ↦ none | some y ↦ prev y ]

-- What WithBBoltCache sets up for one configuration.
pub record Setup : Type 0 where
  pub file : Text
  pub disable_deep_copy : Bool
  pub deep_copy : Bool

module _ (decimal : ℕ → Text) where
  -- The function that WithBBoltCache returns, with the captured `file` after it; `sum` is the hash of the
  -- configuration.
  unfoldable pub with_bolt_cache : Text → ℕ → Text × Setup
  with_bolt_cache file sum =
      let file' = file ++ b'.' ∷ decimal sum in
      let disable_deep_copy = true in
      (
        file',
        record {
          file = file';
          disable_deep_copy = disable_deep_copy;
          deep_copy = not disable_deep_copy;
        },
      )

  -- The caches that it makes for one configuration after the other.
  unfoldable pub with_bolt_caches : Text → List ℕ → List Setup
  with_bolt_caches file [] = []
  with_bolt_caches file (sum ∷ sums) =
      let (file', c) = with_bolt_cache file sum in c ∷ with_bolt_caches file' sums

-- The suffixes of the hashes, one after the other.
abbrev pub suffixes : (ℕ → Text) → List ℕ → Text
suffixes decimal [] = []
suffixes decimal (sum ∷ sums) = (b'.' ∷ decimal sum) ++ suffixes decimal sums

abbrev pub last_file : Text → List Setup → Text
last_file file [] = file
last_file file (c ∷ cs) = last_file c.file cs

-- The file of each cache carries the suffixes of all that were made before it, and no cache copies the
-- objects that it returns, whatever was asked for.
pub with_bolt_caches-file :
    (decimal : ℕ → Text) (file : Text) (sums : List ℕ)
    → (last_file file (with_bolt_caches decimal file sums) ≡ file ++ suffixes decimal sums)
      × All (λ c. c.deep_copy ≡ false) (with_bolt_caches decimal file sums)
unfolding with_bolt_caches with_bolt_cache
with_bolt_caches-file decimal file [] = (sym (append-nil file), tt)
with_bolt_caches-file decimal file (sum ∷ sums) =
    let (p, q) = with_bolt_caches-file decimal (file ++ b'.' ∷ decimal sum) sums in
    (p ∙ append_assoc file (b'.' ∷ decimal sum) (suffixes decimal sums), (refl, q))
