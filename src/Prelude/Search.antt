-- ===== src/Prelude/Search.antt =====
-- `sort.Search` of Go: binary search for the least index at which a monotone test holds.
use Prim.Native.Nat.{ℕ, zero, suc, ◌+◌, ◌/◌, ◌≤◌, ◌<◌}
use mathlib.Core.Path.{◌≡◌}
use mathlib.Core.Logic.{inl, inr}
use mathlib.Core.Bool.{Bool, true, false}
use native.Mathlib.Omega.{arith}
use xgql.Prelude.Tests.{ltb, Bool-cases, if◌then◌else◌}

search_loop : ℕ → (ℕ → Bool) → ℕ → ℕ → ℕ
search_loop zero f i j = i
search_loop (suc fuel) f i j =
    let h = (i + j) / 2 in
    let left = search_loop fuel f i h in
    let right = search_loop fuel f (h + 1) j in if ltb i j then if f h then left else right else i

-- The interval shrinks in each round, so `n` rounds are enough.
unfoldable pub search : ℕ → (ℕ → Bool) → ℕ
unfolding search_loop
search n f = search_loop n f 0 n

-- `r` splits the indices below `n` into those that fail the test and those that pass it.
pub record Splits (n : ℕ) (f : ℕ → Bool) (r : ℕ) : Type 0 where
  pub within : r ≤ n
  pub fails : (k : ℕ) → k < r → f k ≡ false
  pub passes : (k : ℕ) → r ≤ k → k < n → f k ≡ true

abbrev pub IsMonotone : ℕ → (ℕ → Bool) → Type 0
IsMonotone n f = (a b : ℕ) → a ≤ b → b < n → f a ≡ true → f b ≡ true

module _ (n : ℕ) (f : ℕ → Bool) (mono : IsMonotone n f) where
  fails_below : (h : ℕ) → h < n → f h ≡ false → (k : ℕ) → k < h + 1 → f k ≡ false
  fails_below h hn fh k le = elim (Bool-cases (f k)) [
    | inl p ↦ absurd (cc (mono k h (omega arith) hn p))
    | inr q ↦ q
  ]

  search_loop-Splits :
      (fuel i j : ℕ)
      → j ≤ fuel + i
      → i ≤ j
      → j ≤ n
      → ((k : ℕ) → k < i → f k ≡ false)
      → ((k : ℕ) → j ≤ k → k < n → f k ≡ true)
      → Splits n f (search_loop fuel f i j)
  unfolding search_loop
  search_loop-Splits zero i j le ij jn lo hi = record {
    within = omega arith;
    fails = lo;
    passes = λ k h. hi k (omega arith);
  }
  search_loop-Splits (suc fuel) i j le ij jn lo hi = elim (Bool-cases (ltb i j)) [
    | inr q ↦
        rw q (record { within = omega arith; fails = lo; passes = λ k h. hi k (ground arith) })
    | inl p ↦ elim (Bool-cases (f ((i + j) / 2))) [
      | inl t ↦
          rw (p, t)
            (search_loop-Splits fuel i ((i + j) / 2) (ground arith) (ground arith) (ground arith) lo
              (λ k h kn. mono ((i + j) / 2) k h kn t))
      | inr t ↦
          rw (p, t)
            (search_loop-Splits fuel ((i + j) / 2 + 1) j (ground arith) (ground arith) jn
              (fails_below ((i + j) / 2) (ground arith) t) hi)
    ]
  ]

  -- The result of `sort.Search` at a monotone test.
  pub search-Splits : Splits n f (search n f)
  unfolding search
  search-Splits =
      search_loop-Splits n 0 n (omega arith) (omega arith) (omega arith) (λ k h. elim h [ ])
        (λ k h kn. absurd (omega arith))

-- There is one such index.
pub Splits-unique : {n : ℕ} {f : ℕ → Bool} {r s : ℕ} → Splits n f r → Splits n f s → r ≡ s
Splits-unique {r = r} {s = s} p q =
    ground (arith, p.fails s, q.fails r, p.passes s, q.passes r, p.passes r, q.passes s)
