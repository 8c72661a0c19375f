-- ===== src/Cache/Cleaner/Entries.antt =====
-- The entries of one key among those of internal/cache/cleaner.go.
use xgql.Prelude.{
  ℕ, ◌≤◌, ◌<◌, ◌≡◌, ◌≢◌, refl, ◌⊎◌, inl, inr, true, false, List, [], ◌∷◌, ◌++◌, Eq, Ord, ◌==◌, All,
  arith, if◌then◌else◌, exists_in, Bool-cases, beq_refl, nat_beq,
}
use xgql.Cache.Cleaner.{Exp}
use xgql.Cache.Cleaner.Order.{before, IsSorted, same, before_total, All-before}
use xgql.Cache.Cleaner.Insertion.{place}

-- The last of the entries has this generation and time, and the others are of older generations.
abbrev pub Current : {K : Type 0} → List (Exp K) → ℕ → ℕ → Type 0
Current [] g t = ⊥
Current (x ∷ []) g t = (x.gen ≡ g) × (x.at ≡ t)
Current (x ∷ y ∷ ys) g t = (x.gen < g) × Current (y ∷ ys) g t

pub Current-append :
    {K : Type 0} (xs : List (Exp K)) (x : Exp K) (g t : ℕ)
    → Current xs g t
    → g < x.gen
    → Current (xs ++ x ∷ []) x.gen x.at
Current-append [] x g t h lt = absurd h
Current-append (y ∷ []) x g t h lt = omega arith
Current-append (y ∷ z ∷ ys) x g t h lt = (omega arith, Current-append (z ∷ ys) x g t h.1 lt)

pub Current-cons :
    {K : Type 0} (x : Exp K) (xs : List (Exp K)) (g t : ℕ)
    → Current (x ∷ xs) g t
    → ((xs ≡ []) × (x.gen ≡ g) × (x.at ≡ t)) ⊎ ((x.gen < g) × Current xs g t)
Current-cons x [] g t h = inl (refl, h.0, h.1)
Current-cons x (y ∷ ys) g t h = inr h

module _ {K : Type 0} ⦃e : Eq K⦄ where
  unfoldable pub entries : K → List (Exp K) → List (Exp K)
  entries k [] = []
  entries k (x ∷ xs) = let rest = entries k xs in if x.key == k then x ∷ rest else rest

  -- A time at or after which all entries stand is no later than the last one's.
  pub Current-le :
      (k : K) (xs : List (Exp K)) (b g t : ℕ)
      → All (λ x. b ≤ x.at) xs
      → Current (entries k xs) g t
      → b ≤ t
  unfolding entries
  Current-le k [] b g t h c = absurd c
  Current-le k (x ∷ xs) b g t h c = elim (Bool-cases (x.key == k)) [
    | inr p ↦ Current-le k xs b g t h.1 (rw p at c)
    | inl p ↦ elim (Current-cons x (entries k xs) g t (rw p at c)) [
      | inl last ↦ omega (arith, h.0)
      | inr more ↦ Current-le k xs b g t h.1 more.1
    ]
  ]

  pub Current-ge :
      (k : K) (xs : List (Exp K)) (b g t : ℕ)
      → All (λ x. x.at ≤ b) xs
      → Current (entries k xs) g t
      → t ≤ b
  unfolding entries
  Current-ge k [] b g t h c = absurd c
  Current-ge k (x ∷ xs) b g t h c = elim (Bool-cases (x.key == k)) [
    | inr p ↦ Current-ge k xs b g t h.1 (rw p at c)
    | inl p ↦ elim (Current-cons x (entries k xs) g t (rw p at c)) [
      | inl last ↦ omega (arith, h.0)
      | inr more ↦ Current-ge k xs b g t h.1 more.1
    ]
  ]

module _ {K : Type 0} ⦃e : Eq K⦄ ⦃o : Ord K⦄ where
  -- After an entry, and no later, there is no other of its key.
  entries_after :
      (x : Exp K) (ys : List (Exp K))
      → All (λ y. before x y ≡ true) ys
      → All (λ y. y.at ≤ x.at) ys
      → entries x.key ys ≡ []
  unfolding entries before
  entries_after x [] h k = refl
  entries_after x (y ∷ ys) h k =
      ground
        (arith, entries_after x ys h.1 k.1, h.0, k.0, o.less_irrefl x.key, e.beq_iff y.key x.key)

  pub entries-place_ne :
      (k : K) (x : Exp K) (ys : List (Exp K))
      → (x.key == k) ≡ false
      → entries k (place x ys) ≡ entries k ys
  unfolding entries place
  entries-place_ne k x [] h = ground arith
  entries-place_ne k x (y ∷ ys) h = ground (arith, entries-place_ne k x ys h)

  entries-snoc : (x : Exp K) → entries x.key (x ∷ []) ≡ x ∷ []
  unfolding entries
  entries-snoc x = rw (beq_refl x.key)

  entries-place_behind :
      (x y : Exp K) (ys : List (Exp K))
      → entries x.key (place x ys) ≡ entries x.key ys ++ x ∷ []
      → entries x.key (y ∷ place x ys) ≡ entries x.key (y ∷ ys) ++ x ∷ []
  unfolding entries
  entries-place_behind x y ys h = ground arith

  entries-place_front :
      (x : Exp K) (ys : List (Exp K))
      → entries x.key ys ≡ []
      → entries x.key (x ∷ ys) ≡ entries x.key ys ++ x ∷ []
  unfolding entries
  entries-place_front x ys h = ground (arith, beq_refl x.key)

  -- At the latest time so far the new entry comes last among those of its key.
  pub entries-place :
      (x : Exp K) (ys : List (Exp K))
      → IsSorted ys
      → All (λ y. y.at ≤ x.at) ys
      → exists_in (same x) ys ≡ false
      → entries x.key (place x ys) ≡ entries x.key ys ++ x ∷ []
  unfolding place exists_in
  entries-place x [] h k n = entries-place_front x [] (unfold entries in refl)
  entries-place x (y ∷ ys) h k n = elim (Bool-cases (before y x)) [
    | inl p ↦ rw p (entries-place_behind x y ys (entries-place x ys h.1 k.1 (ground arith)))
    | inr p ↦
        let q : before x y ≡ true = before_total x y p (ground arith) in
        rw p
          (entries-place_front x (y ∷ ys) (entries_after x (y ∷ ys) (q, All-before x y ys q h.0) k))
  ]

  pub entries_of_exists :
      (x : Exp K) (ys : List (Exp K)) → exists_in (same x) ys ≡ true → entries x.key ys ≢ []
  unfolding entries exists_in same
  entries_of_exists x [] h = λ p. cc
  entries_of_exists x (y ∷ ys) h = ground (arith, entries_of_exists x ys)

  at_of_before :
      (x y : Exp K) (ys : List (Exp K))
      → x.at ≤ y.at
      → All (λ z. before y z ≡ true) ys
      → All (λ z. x.at ≤ z.at) ys
  unfolding before
  at_of_before x y [] le h = tt
  at_of_before x y (z ∷ ys) le h = (ground (arith, h.0), at_of_before x y ys le h.1)

  same-at : (x y : Exp K) → same x y ≡ true → x.at ≤ y.at
  unfolding same
  same-at x y h = ground arith

  exists_tail :
      (x y : Exp K) (ys : List (Exp K))
      → same x y ≡ false
      → exists_in (same x) (y ∷ ys) ≡ true
      → exists_in (same x) ys ≡ true
  unfolding exists_in
  exists_tail x y ys s p = ground arith

  Current-tail :
      (x y : Exp K) (ys : List (Exp K)) (g t : ℕ)
      → Current (entries x.key (y ∷ ys)) g t
      → exists_in (same x) ys ≡ true
      → Current (entries x.key ys) g t
  unfolding entries
  Current-tail x y ys g t c p = elim (Bool-cases (y.key == x.key)) [
    | inr q ↦ rw q at c
    | inl q ↦ elim (Current-cons y (entries x.key ys) g t (rw q at c)) [
      | inl last ↦ absurd (entries_of_exists x ys p last.0)
      | inr more ↦ more.1
    ]
  ]

  last_of_exists :
      (x : Exp K) (ys : List (Exp K)) (g t : ℕ)
      → IsSorted ys
      → Current (entries x.key ys) g t
      → exists_in (same x) ys ≡ true
      → x.at ≤ t
  last_of_exists x [] g t h c p = absurd (unfold entries in c)
  last_of_exists x (y ∷ ys) g t h c p = elim (Bool-cases (same x y)) [
    | inl s ↦
        Current-le x.key (y ∷ ys) x.at g t (same-at x y s, at_of_before x y ys (same-at x y s) h.0)
          c
    | inr s ↦
        last_of_exists x ys g t h.1 (Current-tail x y ys g t c (exists_tail x y ys s p))
          (exists_tail x y ys s p)
  ]

  exists_of_last :
      (x : Exp K) (ys : List (Exp K)) (g : ℕ)
      → Current (entries x.key ys) g x.at
      → exists_in (same x) ys ≡ true
  unfolding entries exists_in same
  exists_of_last x [] g c = absurd c
  exists_of_last x (y ∷ ys) g c = elim (Bool-cases (y.key == x.key)) [
    | inr p ↦ ground (arith, exists_of_last x ys g (rw p at c))
    | inl p ↦ elim (Current-cons y (entries x.key ys) g x.at (rw p at c)) [
      | inl last ↦ ground (arith, last.2)
      | inr more ↦ ground (arith, exists_of_last x ys g more.1)
    ]
  ]

  -- The key is scheduled at the latest time exactly if that is the time of its last entry.
  pub exists_in-Current :
      (x : Exp K) (ys : List (Exp K)) (g t : ℕ)
      → IsSorted ys
      → All (λ y. y.at ≤ x.at) ys
      → Current (entries x.key ys) g t
      → exists_in (same x) ys ≡ nat_beq t x.at
  exists_in-Current x ys g t h k c = elim (Bool-cases (exists_in (same x) ys)) [
    | inl p ↦ rw p (ground (arith, last_of_exists x ys g t h c p, Current-ge x.key ys x.at g t k c))
    | inr p ↦ rw p (other t c p)
  ]
    where
      other :
          (t : ℕ)
          → Current (entries x.key ys) g t
          → exists_in (same x) ys ≡ false
          → false ≡ nat_beq t x.at
      other t c p = elim (Bool-cases (nat_beq t x.at)) [
        | inr q ↦ rw q
        | inl q ↦ let eq : t ≡ x.at = ground arith in cc (exists_of_last x ys g (rw eq at c))
      ]
