-- ===== src/Cache/Bolt/Reads.antt =====
-- Reads of cleaned-up objects through `rehydrateObject` of internal/cache/bbolt_cache.go.
use xgql.Prelude.{
  ◌≡◌, refl, sym, inl, inr, Bool, true, false, none, some, List, [], ◌∷◌, ◌++◌, map, All, Dict,
  text_eq, text_beq, Bool-cases, insert, arith, Text, Reorders,
}
use xgql.Cache.Bolt.{
  Error, Result, ok, err, Bucket, Objects, Update, less, set_zero, bucket_or_new, write_all, update,
  cleanup, fetch, filled, is_zero, rehydrate_object,
}
use xgql.Cache.Bolt.Persist.{of_key, HasKeysOnce, stored, cleanup-stored}

-- What SetZeroValue and SetUID of an object do: its zero value has no name, and a UID that is set in the
-- zero value is there, and leaves the name.
pub record Zeroes {T V G : Type 0} (os : Objects T V G) (x : T) : Type 0 where
  pub zero_value : T
  pub zeroes : os.set_zero_value x ≡ some zero_value
  pub has_no_name : os.name zero_value ≡ []
  pub sets_uid : (u : Text) → os.uid (os.set_uid u zero_value) ≡ u
  pub keeps_name : (u : Text) → os.name (os.set_uid u zero_value) ≡ os.name zero_value

module _ {T V G : Type 0} (os : Objects T V G) where
  -- What setZero leaves of an object.
  abbrev pub zeroed : T → T
  zeroed x = (set_zero os x).0

  uid-zeroed : (x : T) → Zeroes os x → os.uid (zeroed x) ≡ os.uid x
  unfolding set_zero
  uid-zeroed x z = ground (arith, z.zeroes, z.sets_uid (os.uid x))

  set_zero_succeeds : (x : T) → Zeroes os x → (set_zero os x).1 ≡ true
  unfolding set_zero
  set_zero_succeeds x z = ground (arith, z.zeroes)

  zeroed-is_zero : (x : T) → Zeroes os x → is_zero os (zeroed x) ≡ true
  unfolding set_zero is_zero
  zeroed-is_zero x z = ground (arith, z.zeroes, z.keeps_name (os.uid x), z.has_no_name)

  fetch_stored :
      (b : Bucket V) (x : T) (v : V)
      → Zeroes os x
      → os.unmarshal v (zeroed x) ≡ some x
      → stored b (os.uid x) ≡ some v
      → fetch os (ok b) (zeroed x) ≡ ok x
  unfolding fetch
  fetch_stored none x v z u q = absurd (ground arith)
  fetch_stored (some b) x v z u q = ground (arith, uid-zeroed x z, u, q)

  fetch_missing :
      (b : Bucket V) (z : T)
      → stored b (os.uid z) ≡ none
      → (e : Error) × (fetch os (ok b) z ≡ err e)
  unfolding fetch
  fetch_missing none z q = (Error.no_bucket, refl)
  fetch_missing (some b) z q = (Error.no_key, ground (arith, q))

  -- An object that a cleanup gets past: it is marshalled, put and zeroed.
  pub record Passes (w : Update V) (x : T) : Type 0 where
    pub value : V
    pub marshals : os.marshal x ≡ some value
    pub puts : w.put (os.uid x) value ≡ true
    pub zero : Zeroes os x

  write_all_failed :
      (w : Update V) (xs ys : List T) (y : T) (b : Dict Text V)
      → All (Passes w) xs
      → os.marshal y ≡ none
      → write_all os w (xs ++ (y ∷ ys)) b ≡ (map zeroed xs ++ (y ∷ ys), err Error.object_marshal)
  unfolding write_all
  write_all_failed w [] ys y b h n = ground (arith, n)
  write_all_failed w (x ∷ xs) ys y b h n =
      let p = h.0 in
      let rest = write_all_failed w xs ys y (insert b (os.uid x) p.value) h.1 n in
      ground (arith, p.marshals, p.puts, set_zero_succeeds x p.zero, rest)

  -- What holds of all objects holds of the one of a key.
  of_key-All :
      (P : T → Type 0) (k : Text) (xs : List T) {x : T} → All P xs → of_key os k xs ≡ some x → P x
  of_key-All P k [] h e = absurd (ground (arith, e))
  of_key-All P k (y ∷ ys) {x = x} h e = elim (Bool-cases (text_beq (os.uid y) k)) [
    | inl p ↦ let same : y ≡ x = ground (arith, p, e) in rw (sym same) h.0
    | inr p ↦ of_key-All P k ys h.1 (ground (arith, p, e))
  ]

module _ {T V G S : Type 0} (os : Objects T V G) (schedule : T → S → S)
    (get_bucket : S → S × Result (Bucket V)) where
  rehydrate_zero :
      (z : T) (s : S)
      → is_zero os z ≡ true
      → (rehydrate_object os schedule get_bucket false z s).1
        ≡ fetch os (get_bucket (schedule z s)).1 z
  unfolding rehydrate_object filled
  rehydrate_zero z s p = ground (arith, p)

  -- After a cleanup without an error of objects with different keys, a read without a deep copy of one
  -- of them as setZero left it gives back the object as it was, where the read sees the cleanup's
  -- bucket and the object's value unmarshals into the zeroed object as the object.
  pub rehydrate_object-cleanup :
      (sort : (T → T → Bool) → List T → List T) (w : Update V) (xs : List T) (b : Bucket V) (x : T)
      (v : V) (s : S)
      → HasKeysOnce os xs
      → Reorders xs (sort (less os) xs)
      → of_key os (os.uid x) xs ≡ some x
      → Zeroes os x
      → (os.marshal x ≡ some v) × (os.unmarshal v (zeroed os x) ≡ some x)
      → (cleanup os sort w xs b).error ≡ none
      → (get_bucket (schedule (zeroed os x) s)).1 ≡ ok (cleanup os sort w xs b).bucket
      → (rehydrate_object os schedule get_bucket false (zeroed os x) s).1 ≡ ok x
  rehydrate_object-cleanup sort w xs b x v s d r m z p h g =
      elim (cleanup-stored os sort w (os.uid x) xs b d r) [
        | inl c ↦
            let there : stored (cleanup os sort w xs b).bucket (os.uid x) ≡ some v =
              ground (arith, c.1, m, p.0) in
            rw (rehydrate_zero (zeroed os x) s (zeroed-is_zero os x z), g)
              (fetch_stored os (cleanup os sort w xs b).bucket x v z p.1 there)
        | inr c ↦ absurd (c.0 h)
      ]

  -- If, of objects with different keys, one cannot be marshalled, and those that are sorted before it
  -- are marshalled, put and zeroed, the cleanup ends with the error of marshalling and its writes are
  -- rolled back, but the objects before it stay zeroed: a read of one that no earlier cleanup stored,
  -- where it sees that bucket, fails.
  pub rehydrate_object-failed :
      (sort : (T → T → Bool) → List T → List T) (w : Update V) (objects xs ys : List T) (y : T)
      (b : Bucket V)
      → HasKeysOnce os objects
      → sort (less os) objects ≡ xs ++ (y ∷ ys)
      → All (Passes os w) xs
      → os.marshal y ≡ none
      → w.create ≡ true
      → (x : T) (s : S) → of_key os (os.uid x) xs ≡ some x
      → stored b (os.uid x) ≡ none
      → (get_bucket (schedule (zeroed os x) s)).1 ≡ ok b
      → let c = cleanup os sort w objects b in
        (c.error ≡ some Error.object_marshal)
        × (c.bucket ≡ b)
        × (c.objects ≡ map (zeroed os) xs ++ (y ∷ ys))
        × (e : Error) × ((rehydrate_object os schedule get_bucket false (zeroed os x) s).1 ≡ err e)
  unfolding cleanup update
  rehydrate_object-failed sort w objects xs ys y b _ o h n c x s m a g =
      let p = of_key-All os (Passes os w) (os.uid x) xs h m in
      let gone : stored b (os.uid (zeroed os x)) ≡ none = rw (uid-zeroed os x p.zero) a in
      let (e, f) = fetch_missing os b (zeroed os x) gone in
      let wrote = write_all_failed os w xs ys y (bucket_or_new b) h n in
      (
        ground (arith, o, c, wrote),
        ground (arith, o, c, wrote),
        ground (arith, o, c, wrote),
        e,
        rw (rehydrate_zero (zeroed os x) s (zeroed-is_zero os x p.zero), g) f,
      )
