-- ===== src/Resolvers/Events/Limits.antt =====
-- How many events `limit` of internal/graph/resolvers/event.go returns.
use xgql.Prelude.{
  ℕ, suc, ◌+◌, ◌≤◌, ◌≡◌, refl, ◌⊎◌, inl, inr, List, [], ◌∷◌, ◌++◌, length, ltb, if◌then◌else◌,
  arith, Bool-cases, ap,
}
use xgql.Resolvers.Events.{Event, limit_loop, limit}

-- How many of the events are warnings.
abbrev pub warnings : List Event → ℕ
warnings [] = 0
warnings (e ∷ es) = (if e.is_warning then 1 else 0) + warnings es

-- Why the loop ended: there are no more events, or enough events, or enough warnings.
abbrev pub HasEnough : (target upper_bound n w : ℕ) (taken left : List Event) → Type 0
HasEnough target upper_bound n w taken left =
    (left ≡ []) ⊎ ((upper_bound ≤ n + length taken) ⊎ (target ≤ w + warnings taken))

limit_loop-HasEnough :
    (target upper_bound n w : ℕ) (es : List Event)
    → (left : List Event) × (es ≡ limit_loop target upper_bound n w es ++ left)
      × HasEnough target upper_bound n w (limit_loop target upper_bound n w es) left
unfolding limit_loop
limit_loop-HasEnough target upper_bound n w [] = ([], refl, inl refl)
limit_loop-HasEnough target upper_bound n w (e ∷ es) = elim (Bool-cases (ltb (n + 1) upper_bound)) [
  | inr p ↦ rw p (es, refl, inr (inl (ground (arith, p))))
  | inl p ↦ elim (Bool-cases (ltb (if e.is_warning then w + 1 else w) target)) [
    | inr q ↦ rw (p, q) (es, refl, inr (inr (ground (arith, q))))
    | inl q ↦
        let w' = if e.is_warning then w + 1 else w in
        let (left, s, h) = limit_loop-HasEnough target upper_bound (n + 1) w' es in
        rw (p, q) (left, ap (λ l. e ∷ l) s, ground (arith, h))
  ]
]

limit_loop-le :
    (target upper_bound n w : ℕ) (es : List Event)
    → suc n ≤ upper_bound
    → n + length (limit_loop target upper_bound n w es) ≤ upper_bound
unfolding limit_loop
limit_loop-le target upper_bound n w [] h = omega (arith, h)
limit_loop-le target upper_bound n w (e ∷ es) h =
    ground (arith, limit_loop-le target upper_bound (n + 1) (if e.is_warning then w + 1 else w) es)

-- With an upper bound of at least 1, `limit` returns no more events than that: the first ones, and not
-- fewer than all of them, unless they are as many as the upper bound or have as many warnings as the target.
pub limit_lem :
    (target upper_bound : ℕ) (es : List Event)
    → 1 ≤ upper_bound
    → (length (limit target upper_bound es) ≤ upper_bound)
      × (left : List Event) × (es ≡ limit target upper_bound es ++ left)
      × HasEnough target upper_bound 0 0 (limit target upper_bound es) left
unfolding limit
limit_lem target upper_bound es h =
    let (left, s, enough) = limit_loop-HasEnough target upper_bound 0 0 es in
    (omega (arith, limit_loop-le target upper_bound 0 0 es h), left, s, enough)
