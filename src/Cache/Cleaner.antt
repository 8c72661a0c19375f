-- ===== src/Cache/Cleaner.antt =====
-- internal/cache/cleaner.go: objects are cleaned up some time after they were last scheduled. Times
-- are instants on the clock's own scale; a key is of any ordered type, and `key_fn` is `keyFn`.
pub mod Order
pub mod Insertion
pub mod Sorted
pub mod Entries
pub mod Deadlines
pub mod Refinement
pub mod Collection
pub mod Histories
pub mod Loop
use Prim.Native.Nat.{◌%◌, ◌^◌}
use xgql.Prelude.{
  ℕ, zero, suc, ◌+◌, Bool, true, false, ◌&&◌, ◌||◌, not, Option, none, some, List, [], ◌∷◌, ◌++◌,
  Eq, Ord, ◌==◌, ltb, nat_beq, length, get_elem?, Dict, lookup, delete, insert, search,
  if◌then◌else◌,
}

-- expKey
pub record Exp (K : Type 0) : Type 0 where
  pub gen : ℕ
  pub key : K
  pub at : ℕ

-- expRef
pub record Ref (T : Type 0) : Type 0 where
  pub gen : ℕ
  pub obj : T

-- The mutable fields of `cleaner`.
pub record Cleaner (T K : Type 0) : Type 0 where
  pub exps : List (Exp K)
  pub refs : Dict K (Ref T)

-- NewCleaner
unfoldable pub new : {T K : Type 0} → Cleaner T K
new = record { exps = []; refs = [] }

module _ {K : Type 0} where
  -- Grow the slice at an index and set the new entry; at the end this is `append`.
  unfoldable pub insert_at : ℕ → Exp K → List (Exp K) → List (Exp K)
  insert_at i x [] = x ∷ []
  insert_at zero x (y ∷ ys) = x ∷ y ∷ ys
  insert_at (suc i) x (y ∷ ys) = y ∷ insert_at i x ys

  -- `len(c.exps) == 0 || c.exps[0].at.After(at)`
  unfoldable pub is_newest : ℕ → List (Exp K) → Bool
  is_newest at [] = true
  is_newest at (x ∷ xs) = ltb at x.at

  -- The test given to `sort.Search`, at one entry.
  unfoldable pub not_before : ⦃o : Ord K⦄ → ℕ → K → Exp K → Bool
  not_before ⦃o⦄ at k x = if nat_beq x.at at then not (o.less x.key k) else ltb at x.at

  unfoldable pub test_at : ⦃o : Ord K⦄ → ℕ → K → List (Exp K) → ℕ → Bool
  test_at at k xs i = elim (get_elem? xs i) [ none ↦ false | some x ↦ not_before at k x ]

  -- `i < len(c.exps) && c.exps[i].key == k && c.exps[i].at.Equal(at)`
  unfoldable pub is_scheduled : ⦃e : Eq K⦄ → ℕ → K → List (Exp K) → ℕ → Bool
  is_scheduled at k xs i = elim (get_elem? xs i) [
    | none ↦ false
    | some x ↦ x.key == k && nat_beq x.at at
  ]

-- `g := c.refs[k]; g.obj = obj; g.gen++`, where a missing key reads as the zero value.
unfoldable pub next_ref : {T : Type 0} → T → Option (Ref T) → Ref T
next_ref obj none = record { gen = 1; obj = obj }
next_ref obj (some r) = record { gen = (r.gen + 1) % 2 ^ 64; obj = obj }

-- What `collect` leaves and returns: the cleaner, `objs`, and `exp` (`none` is the zero time).
pub record Collected (T K : Type 0) : Type 0 where
  pub cleaner : Cleaner T K
  pub objs : List T
  pub exp : Option ℕ

module _ {T K : Type 0} ⦃e : Eq K⦄ where
  -- add
  unfoldable pub add : ⦃o : Ord K⦄ → (T → K) → T → ℕ → Cleaner T K → Cleaner T K × Bool
  add key_fn obj at c =
      let k = key_fn obj in
      let i = search (length c.exps) (test_at at k c.exps) in
      let g = next_ref obj (lookup c.refs k) in
      if is_scheduled at k c.exps i then (c, false) else (
        record {
          exps = insert_at i (record { gen = g.gen; key = k; at = at }) c.exps;
          refs = insert c.refs k g;
        },
        is_newest at c.exps,
      )

  -- The entry's object, if the entry is the one that counts for its key.
  unfoldable pub claim : Exp K → Dict K (Ref T) → Dict K (Ref T) × List T
  claim x refs = elim (lookup refs x.key) [
    | none ↦ (refs, [])
    | some r ↦ if nat_beq r.gen x.gen then (delete refs x.key, r.obj ∷ []) else (refs, [])
  ]

  -- The loop of `collect` over the entries that are left.
  unfoldable pub collect_loop : ℕ → List (Exp K) → Dict K (Ref T) → List T → Collected T K
  collect_loop now [] refs objs = record {
    cleaner = record { exps = []; refs = refs };
    objs = objs;
    exp = none;
  }
  collect_loop now (x ∷ xs) refs objs =
      let (refs', objs') = claim x refs in
      let rest = collect_loop now xs refs' (objs ++ objs') in
      if ltb now x.at
      then record { cleaner = record { exps = x ∷ xs; refs = refs }; objs = objs; exp = some x.at }
      else rest

  unfoldable pub collect : ℕ → Cleaner T K → Collected T K
  collect now c = collect_loop now c.exps c.refs []
