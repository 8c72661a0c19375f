-- ===== src/Cache/Bolt.antt =====
-- The `BBoltCache` of internal/cache/bbolt_cache.go: objects that are cleaned up move to a bucket of a
-- database, where a read finds them again. `T` is client.Object, `V` a marshalled value.
pub mod Transactions
pub mod Persist
pub mod Reads
pub mod Client
use xgql.Prelude.{
  Bool, true, false, Option, none, some, List, [], ◌∷◌, Text, Dict, lookup, insert, Ord, text_eq,
  text_ord, is_empty, if◌then◌else◌,
}

pub data Error : Type 0 where
  bucket_create object_marshal object_put object_zero commit : Error
  tx_begin tx_rollback object_gvk no_bucket no_key object_unmarshal object_get : Error

pub data Result (A : Type 0) : Type 0 where
  ok : A → Result A
  err : Error → Result A

-- The bucket, or nil where no transaction created it.
abbrev pub Bucket : Type 0 → Type 0
Bucket V = Option (Dict Text V)

-- What the cache calls on objects: their accessors, runtime.SetZeroValue, DeepCopyObject, the kind by
-- the scheme, and the functions that marshal.
pub record Objects (T V G : Type 0) : Type 0 where
  pub name : T → Text
  pub uid : T → Text
  pub set_uid : Text → T → T
  pub set_zero_value : T → Option T
  pub copy : T → T
  pub get_gvk : T → Option G
  pub set_gvk : G → T → T
  pub marshal : T → Option V
  pub unmarshal : V → T → Option T

-- How the calls of the database end in one `Update`.
pub record Update (V : Type 0) : Type 0 where
  pub create : Bool
  pub put : Text → V → Bool
  pub commit : Bool

-- What an `Update` of the objects leaves in memory and in the database.
pub record Cleaned (T V : Type 0) : Type 0 where
  pub objects : List T
  pub bucket : Bucket V
  pub error : Option Error

unfoldable pub bucket_or_new : {V : Type 0} → Bucket V → Dict Text V
bucket_or_new none = []
bucket_or_new (some b) = b

module _ {T V G : Type 0} (os : Objects T V G) where
  -- isZero
  unfoldable pub is_zero : T → Bool
  is_zero x = is_empty (os.name x)

  -- setZero, and whether it succeeded. The deferred call has evaluated its argument before.
  unfoldable pub set_zero : T → T × Bool
  set_zero x = elim (os.set_zero_value x) [
    | none ↦ (os.set_uid (os.uid x) x, false)
    | some y ↦ (os.set_uid (os.uid x) y, true)
  ]

  -- The order that `cleanup` sorts by.
  unfoldable pub less : T → T → Bool
  less x y = text_ord.less (os.uid x) (os.uid y)

  -- The loop of `cleanup`, on a bucket.
  unfoldable pub write_all : Update V → List T → Dict Text V → List T × Result (Dict Text V)
  write_all w [] b = ([], ok b)
  write_all w (x ∷ xs) b = elim (os.marshal x) [
    | none ↦ (x ∷ xs, err Error.object_marshal)
    | some v ↦
        let (ys, r) = write_all w xs (insert b (os.uid x) v) in
        if w.put (os.uid x) v
        then (let (z, zeroed) = set_zero x in
            if zeroed then (z ∷ ys, r) else (z ∷ xs, err Error.object_zero))
        else (x ∷ xs, err Error.object_put)
  ]

  -- `Update` commits what the function wrote, or rolls it back.
  unfoldable pub update : Bool → Bucket V → List T × Result (Dict Text V) → Cleaned T V
  update commits old (xs, ok b) =
      if commits
      then record { objects = xs; bucket = some b; error = none }
      else record { objects = xs; bucket = old; error = some Error.commit }
  update commits old (xs, err e) = record { objects = xs; bucket = old; error = some e }

  -- cleanup, of objects none of which is there twice; `sort` is sort.Slice.
  unfoldable pub cleanup :
      ((T → T → Bool) → List T → List T) → Update V → List T → Bucket V → Cleaned T V
  cleanup sort w objects b =
      let objects = sort less objects in
      if w.create
      then update w.commit b (write_all w objects (bucket_or_new b))
      else record { objects = objects; bucket = b; error = some Error.bucket_create }

  -- From the key to the object, in the bucket that `getBucket` returned.
  unfoldable pub fetch : Result (Bucket V) → T → Result T
  fetch (err e) x = err e
  fetch (ok none) x = err Error.no_bucket
  fetch (ok (some b)) x = elim (lookup b (os.uid x)) [
    | none ↦ err Error.no_key
    | some v ↦ elim (os.unmarshal v x) [ none ↦ err Error.object_unmarshal | some y ↦ ok y ]
  ]

  unfoldable pub copied : Option G → Result T → Result T
  copied none r = r
  copied (some g) (ok y) = ok (os.set_gvk g (os.copy y))
  copied (some g) (err e) = err e

  module _ {S : Type 0} (schedule : T → S → S) (get_bucket : S → S × Result (Bucket V)) where
    -- The part of `rehydrateObject` below the deep copy.
    unfoldable pub filled : T → S → S × Result T
    filled x s = if is_zero x then (let (s', b) = get_bucket s in (s', fetch b x)) else (s, ok x)

    -- rehydrateObject; `S` is the state of the cleaner and of the transactions.
    unfoldable pub rehydrate_object : Bool → T → S → S × Result T
    rehydrate_object deep_copy x s =
        let s0 = schedule x s in
        let (s1, r) = filled x s0 in
        if deep_copy
        then elim (os.get_gvk x) [
          | none ↦ (s0, err Error.object_gvk)
          | some g ↦ (s1, copied (some g) r)
        ]
        else (s1, r)

    -- The walk of `rehydrateObjectList`, which ends at the first error; a kind makes it copy.
    unfoldable pub rehydrate_each : Option G → List T → S → S × Result (List T)
    rehydrate_each g [] s = (s, ok [])
    rehydrate_each g (x ∷ xs) s =
        let (s', r) = rehydrate_object false x s in
        let (t, rs) = rehydrate_each g xs s' in
        elim (copied g r) [
          | err e ↦ (s', err e)
          | ok y ↦ (t, elim rs [ ok ys ↦ ok (y ∷ ys) | err e ↦ err e ])
        ]

    -- rehydrateObjectList, of a list whose kind less `List` is `g`, where it has one.
    unfoldable pub rehydrate_object_list : Bool → Option G → List T → S → S × Result (List T)
    rehydrate_object_list deep_copy g xs s =
        let r = rehydrate_each g xs s in
        if deep_copy
        then elim g [ none ↦ (s, err Error.object_gvk) | some h ↦ r ]
        else rehydrate_each none xs s

-- The cache's preference and the caller's for deep copies in `List`.
unfoldable pub copies : Bool → Option Bool → Bool
copies deep_copy none = deep_copy
copies deep_copy (some disabled) = if disabled then false else deep_copy
