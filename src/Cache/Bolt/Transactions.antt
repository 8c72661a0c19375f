-- ===== src/Cache/Bolt/Transactions.antt =====
-- txOnce of internal/cache/bbolt_cache.go: the readers of one request share a read transaction, which
-- the last of them rolls back.
pub mod Balance
use xgql.Prelude.{
  ℕ, ◌+◌, ◌-◌, ◌≤◌, ◌<◌, ◌≡◌, refl, Bool, true, false, Option, none, some, List, [], ◌∷◌, Text,
  Dict, nat_beq, if◌then◌else◌, is_empty, arith, Option-cases, Bool-cases, ltb,
}
use xgql.Cache.Bolt.{Error, Result, ok, err, Bucket}

-- The database: its bucket, the read transactions that are open, and how many were begun.
pub record Db (V : Type 0) : Type 0 where
  pub bucket : Bucket V
  pub open_txs : List ℕ
  pub begun : ℕ

-- boltTxCtx with the variables `tx` and `b` that its two functions share. A transaction reads the
-- bucket as it was when it began.
pub record Shared (V : Type 0) : Type 0 where
  pub used : ℕ
  pub tx : Option ℕ
  pub b : Bucket V

-- The open transactions without one that ended.
unfoldable pub drop : ℕ → List ℕ → List ℕ
drop i [] = []
drop i (j ∷ js) = let rest = drop i js in if nat_beq i j then js else j ∷ rest

module _ {V : Type 0} where
  -- A request's boltTxCtx at first.
  unfoldable pub unused : Shared V
  unused = record { used = 0; tx = none; b = none }

  -- txOnce, in a request that shares a transaction.
  unfoldable pub tx_once : Shared V → Shared V
  tx_once s = record s { used = s.used + 1 }

  -- getBucket; `begins` says whether `Begin` succeeds.
  unfoldable pub get_bucket : Bool → Shared V × Db V → (Shared V × Db V) × Result (Bucket V)
  get_bucket begins (s, db) = elim s.b [
    | some b ↦ ((s, db), ok (some b))
    | none ↦
        if begins
        then (
          (
            record s { tx = some db.begun; b = db.bucket },
            record db { open_txs = db.begun ∷ db.open_txs; begun = db.begun + 1 },
          ),
          ok db.bucket,
        )
        else ((record s { tx = none }, db), err Error.tx_begin)
  ]

  -- done; `rolls_back` says whether `Rollback` succeeds, which ends the transaction.
  unfoldable pub done : Bool → Shared V × Db V → (Shared V × Db V) × Bool
  done rolls_back (s, db) =
      let s' : Shared V = record s { used = s.used - 1 } in
      if ltb 1 s.used then ((s', db), true) else elim s.tx [
        | none ↦ ((s', db), true)
        | some i ↦ (
          (
            record { used = s.used - 1; tx = none; b = none },
            record db { open_txs = if rolls_back then drop i db.open_txs else db.open_txs },
          ),
          rolls_back,
        )
      ]

  -- What the readers of a request do, and the cleanups beside them, which change the bucket. A reader
  -- calls `getBucket` between its `txOnce` and its `done`.
  pub data Step : Shared V × Db V → Shared V × Db V → Type 0 where
    reads : {s : Shared V} {db : Db V} → Step (s, db) (tx_once s, db)
    gets :
        {s : Shared V} {db : Db V} (begins : Bool)
        → 0 < s.used
        → Step (s, db) (get_bucket begins (s, db)).0
    ends : {s : Shared V} {db : Db V} → 0 < s.used → Step (s, db) (done true (s, db)).0
    cleans :
        {s : Shared V} {db : Db V} (b : Dict Text V)
        → Step (s, db) (s, record db { bucket = some b })

  pub data Run (c : Shared V × Db V) : Shared V × Db V → Type 0 where
    stop : Run c c
    more : {d e : Shared V × Db V} → Run c d → Step d e → Run c e
