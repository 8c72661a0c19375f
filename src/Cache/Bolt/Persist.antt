-- ===== src/Cache/Bolt/Persist.antt =====
-- What `cleanup` of internal/cache/bbolt_cache.go leaves in the database.
use xgql.Prelude.{
  ◌≡◌, ◌≢◌, refl, sym, ap, ◌∙◌, ◌⊎◌, inl, inr, Bool, false, Option, none, some, List, [], ◌∷◌, Text,
  Dict, lookup, insert, text_eq, text_ord, text_beq, text_beq_iff, ◌==◌, if◌then◌else◌, arith,
  Option-cases, Bool-cases, lookup-insert, Reorders, none_left, keep, swap, both,
}
use xgql.Cache.Bolt.{
  Error, Result, ok, err, Bucket, Objects, Update, less, set_zero, write_all, bucket_or_new, update,
  cleanup,
}

pub Result-cases :
    {A : Type 0} (r : Result A) → ((e : Error) × (r ≡ err e)) ⊎ ((a : A) × (r ≡ ok a))
Result-cases (err e) = inl (e, refl)
Result-cases (ok a) = inr (a, refl)

-- What a bucket, or none, has of a key.
abbrev pub stored : {V : Type 0} → Bucket V → Text → Option V
stored none k = none
stored (some b) k = lookup b k

module _ {T V G : Type 0} (os : Objects T V G) where
  -- The object of a key.
  abbrev pub of_key : Text → List T → Option T
  of_key k [] = none
  of_key k (x ∷ xs) = if os.uid x == k then some x else of_key k xs

  -- No two of the objects have one key.
  abbrev pub HasKeysOnce : List T → Type 0
  HasKeysOnce [] = Unit
  HasKeysOnce (x ∷ xs) = (of_key (os.uid x) xs ≡ none) × HasKeysOnce xs

  of_key-Reorders :
      (k : Text) {xs ys : List T}
      → Reorders xs ys
      → HasKeysOnce xs
      → HasKeysOnce ys × (of_key k xs ≡ of_key k ys)
  of_key-Reorders k none_left h = (h, refl)
  of_key-Reorders k (keep x r) h =
      let (h', e) = of_key-Reorders k r h.1 in
      let (_, f) = of_key-Reorders (os.uid x) r h.1 in
      ((sym f ∙ h.0, h'), ap (λ o. if os.uid x == k then some x else o) e)
  of_key-Reorders k (swap x y xs) h = elim (Bool-cases (text_beq (os.uid x) (os.uid y))) [
    | inl p ↦ absurd (
        ground
          (arith, p, h.0, text_beq_iff (os.uid x) (os.uid y), text_beq_iff (os.uid y) (os.uid x)))
    | inr p ↦
        let q : text_beq (os.uid y) (os.uid x) ≡ false =
          ground
            (arith, p, text_beq_iff (os.uid x) (os.uid y), text_beq_iff (os.uid y) (os.uid x)) in
        (
          (rw p h.1.0, (ground (arith, q, h.0), h.1.1)),
          ground (
            arith,
            p,
            text_beq_iff (os.uid x) k,
            text_beq_iff (os.uid y) k,
            text_beq_iff (os.uid x) (os.uid y),
          ),
        )
  ]
  of_key-Reorders k (both r s) h =
      let (h', e) = of_key-Reorders k r h in let (h'', f) = of_key-Reorders k s h' in (h'', e ∙ f)

  -- What the bucket has of a key, after the objects were written.
  abbrev pub written : Option T → Option V → Option V
  written none old = old
  written (some x) old = os.marshal x

  lookup-write_all :
      (w : Update V) (k : Text) (xs : List T) (b b' : Dict Text V)
      → HasKeysOnce xs
      → (write_all os w xs b).1 ≡ ok b'
      → lookup b' k ≡ written (of_key k xs) (lookup b k)
  unfolding write_all set_zero
  lookup-write_all w k [] b b' d h = ground (arith, h)
  lookup-write_all w k (x ∷ xs) b b' d h = elim (Option-cases (os.marshal x)) [
    | inl p ↦ absurd (ground (arith, p, h))
    | inr (v, p) ↦
        let rest : (write_all os w xs (insert b (os.uid x) v)).1 ≡ ok b' =
          elim (Option-cases (os.set_zero_value x)) [
            | inl z ↦ absurd (ground (arith, p, z, h))
            | inr (z, q) ↦ ground (arith, p, q, h)
          ] in
        let step = lookup-write_all w k xs (insert b (os.uid x) v) b' d.1 rest in
        elim (Bool-cases (text_beq (os.uid x) k)) [
          | inl q ↦
              let none_left : of_key k xs ≡ none =
                ground (arith, q, d.0, text_beq_iff (os.uid x) k) in
              ground (arith, p, q, step, none_left, lookup-insert b (os.uid x) k v)
          | inr q ↦ ground (arith, q, step, lookup-insert b (os.uid x) k v)
        ]
  ]

  lookup_or_new : (k : Text) (b : Bucket V) → lookup (bucket_or_new b) k ≡ stored b k
  unfolding bucket_or_new lookup
  lookup_or_new k none = refl
  lookup_or_new k (some b) = refl

  -- A cleanup of objects with different keys, sorted into any order, either has no error, wrote each
  -- object under its key and left everything else, or has an error and left the bucket as it was.
  pub cleanup-stored :
      (sort : (T → T → Bool) → List T → List T) (w : Update V) (k : Text) (xs : List T)
      (b : Bucket V)
      → HasKeysOnce xs
      → Reorders xs (sort (less os) xs)
      → let c = cleanup os sort w xs b in
        ((c.error ≡ none) × (stored c.bucket k ≡ written (of_key k xs) (stored b k)))
        ⊎ ((c.error ≢ none) × (c.bucket ≡ b))
  unfolding cleanup update
  cleanup-stored sort w k xs b d r = elim (Bool-cases w.create) [
    | inr p ↦ ground (arith, p)
    | inl p ↦
        let (d', e) = of_key-Reorders k r d in
        elim (Result-cases (write_all os w (sort (less os) xs) (bucket_or_new b)).1) [
          | inl (e, q) ↦ ground (arith, p, q)
          | inr (b', q) ↦ ground (
            arith,
            p,
            q,
            lookup-write_all w k (sort (less os) xs) (bucket_or_new b) b' d' q,
            e,
            lookup_or_new k b,
          )
        ]
  ]
