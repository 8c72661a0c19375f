-- ===== src/Cache/Bolt/Transactions/Balance.antt =====
-- The read transactions of txOnce in internal/cache/bbolt_cache.go end, unless there is no bucket.
use xgql.Prelude.{
  ℕ, ◌<◌, ◌≡◌, ◌≢◌, refl, inl, inr, Bool, true, false, Option, none, some, List, ◌∷◌, Text, Dict,
  arith, Option-cases, Bool-cases, ltb,
}
use xgql.Cache.Bolt.{ok}
use xgql.Cache.Bolt.Transactions.{
  Db, Shared, unused, tx_once, drop, get_bucket, done, Step, reads, gets, ends, cleans, Run, stop,
  more,
}

abbrev own : Option ℕ → List ℕ → List ℕ
own none others = others
own (some i) others = i ∷ others

module _ {V : Type 0} where
  -- The request has at most one transaction open, beside those of others, and none when nobody reads.
  pub record IsBalanced (others : List ℕ) (c : Shared V × Db V) : Type 0 where
    pub stored : c.1.bucket ≢ none
    pub idle : c.0.used ≡ 0 → c.0.tx ≡ none
    pub opened : c.1.open_txs ≡ own c.0.tx others
    pub kept : c.0.b ≡ none → c.0.tx ≡ none
    pub unkept : c.0.tx ≡ none → c.0.b ≡ none

  get_bucket_kept :
      (begins : Bool) (s : Shared V) (db : Db V) (b : Dict Text V)
      → s.b ≡ some b
      → get_bucket begins (s, db) ≡ ((s, db), ok (some b))
  unfolding get_bucket
  get_bucket_kept begins s db b p = ground (arith, p)

  get_bucket-IsBalanced :
      (others : List ℕ) (begins : Bool) (c : Shared V × Db V)
      → 0 < c.0.used
      → IsBalanced others c
      → IsBalanced others (get_bucket begins c).0
  unfolding get_bucket
  get_bucket-IsBalanced others true (s, db) lt h = elim (Option-cases s.b) [
    | inl p ↦ rw p (record {
      stored = h.stored;
      idle = λ z. absurd (omega arith);
      opened = ground (arith, h.opened, h.kept p);
      kept = λ q. absurd (h.stored q);
      unkept = λ q. cc;
    })
    | inr (b, p) ↦ rw (get_bucket_kept true s db b p) h
  ]
  get_bucket-IsBalanced others false (s, db) lt h = elim (Option-cases s.b) [
    | inl p ↦ rw p (record {
      stored = h.stored;
      idle = λ z. refl;
      opened = ground (arith, h.opened, h.kept p);
      kept = λ q. refl;
      unkept = λ q. refl;
    })
    | inr (b, p) ↦ rw (get_bucket_kept false s db b p) h
  ]

  done-IsBalanced :
      (others : List ℕ) (c : Shared V × Db V)
      → 0 < c.0.used
      → IsBalanced others c
      → IsBalanced others (done true c).0
  unfolding done drop
  done-IsBalanced others (s, db) lt h = elim (Bool-cases (ltb 1 s.used)) [
    | inl p ↦ rw p (record {
      stored = h.stored;
      idle = λ z. absurd (ground (arith, p));
      opened = h.opened;
      kept = h.kept;
      unkept = h.unkept;
    })
    | inr p ↦ elim (Option-cases s.tx) [
      | inl q ↦
          rw (p, q)
            (record {
              stored = h.stored;
              idle = λ z. q;
              opened = h.opened;
              kept = h.kept;
              unkept = h.unkept;
            })
      | inr (i, q) ↦
          rw (p, q)
            (record {
              stored = h.stored;
              idle = λ z. refl;
              opened = ground (arith, h.opened, q);
              kept = λ z. refl;
              unkept = λ z. refl;
            })
    ]
  ]

  Step-IsBalanced :
      (others : List ℕ) {c d : Shared V × Db V}
      → Step c d
      → IsBalanced others c
      → IsBalanced others d
  unfolding tx_once
  Step-IsBalanced others reads h = record {
    stored = h.stored;
    idle = λ z. absurd (omega arith);
    opened = h.opened;
    kept = h.kept;
    unkept = h.unkept;
  }
  Step-IsBalanced others {c = c} (gets begins lt) h = get_bucket-IsBalanced others begins c lt h
  Step-IsBalanced others {c = c} (ends lt) h = done-IsBalanced others c lt h
  Step-IsBalanced others (cleans b) h = record {
    stored = λ z. cc;
    idle = h.idle;
    opened = h.opened;
    kept = h.kept;
    unkept = h.unkept;
  }

  Run-IsBalanced :
      (others : List ℕ) {c d : Shared V × Db V}
      → Run c d
      → IsBalanced others c
      → IsBalanced others d
  Run-IsBalanced others stop h = h
  Run-IsBalanced others (more r s) h = Step-IsBalanced others s (Run-IsBalanced others r h)

  -- In a database that has its bucket, whatever the readers of a request do, and whichever cleanups
  -- come between, the transactions open when the last reader is done are those open before the first.
  pub Run-open_txs :
      (db : Db V) {d : Shared V × Db V}
      → db.bucket ≢ none
      → Run (unused, db) d
      → d.0.used ≡ 0
      → d.1.open_txs ≡ db.open_txs
  unfolding unused
  Run-open_txs db ne r z =
      let h = Run-IsBalanced db.open_txs r (record {
        stored = ne;
        idle = λ u. refl;
        opened = refl;
        kept = λ u. refl;
        unkept = λ u. refl;
      }) in
      ground (arith, h.opened, h.idle z)

  -- Readers that overlap see one bucket: once one of them has it, every step that leaves a reader
  -- keeps it, also a cleanup, which changes the bucket of the database.
  Step-bucket :
      (b : Dict Text V) {c d : Shared V × Db V}
      → Step c d
      → 0 < d.0.used
      → c.0.b ≡ some b
      → (d.0.b ≡ some b) × ((get_bucket true d).1 ≡ ok (some b))
  unfolding tx_once get_bucket done
  Step-bucket b reads lt h = ground (arith, h)
  Step-bucket b (gets begins u) lt h = ground (arith, h)
  Step-bucket b {c = (s, db)} (ends u) lt h = elim (Option-cases s.tx) [
    | inl p ↦ ground (arith, p, h)
    | inr (i, p) ↦ ground (arith, p, h)
  ]
  Step-bucket b (cleans x) lt h = ground (arith, h)

  -- Without a bucket a second `getBucket` of a request begins another transaction and forgets the first,
  -- which is open still when the request's only reader is done.
  get_bucket-done :
      (s : Shared V) (db : Db V)
      → s.used ≡ 1
      → s.b ≡ none
      → db.bucket ≡ none
      → let c1 = (get_bucket true (s, db)).0 in
        let c2 = (get_bucket true c1).0 in
        let c3 = (done true c2).0 in (c3.1.open_txs ≡ db.begun ∷ db.open_txs) × (c3.0 ≡ unused)
  unfolding get_bucket done drop unused
  get_bucket-done s db u p q = ground (arith, u, p, q)
