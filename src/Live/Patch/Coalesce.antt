-- ===== src/Live/Patch/Coalesce.antt =====
-- The loop of CreateJSONPatch in internal/live_query/json_patch.go against a walk along the patch.
use mathlib.Core.List.{append_assoc}
use xgql.Prelude.{
  ℕ, zero, suc, ◌+◌, ◌-◌, ◌≤◌, ◌≡◌, refl, sym, ap, inl, inr, true, false, Option, none, some, List,
  [], ◌∷◌, ◌++◌, text_eq, length, get_elem?, if◌then◌else◌, ltb, arith, Bool-cases, Option-cases,
  length-append,
}
use xgql.Live.Patch.{
  Operation, take, drop, coalesces, replacement, coalesce_at, body, loop, create_json_patch,
}

module _ {A : Type 0} where
  get_elem?-append :
      (xs : List A) (y : A) (ys : List A) → get_elem? (xs ++ y ∷ ys) (length xs) ≡ some y
  get_elem?-append [] y ys = refl
  get_elem?-append (x ∷ xs) y ys = get_elem?-append xs y ys

  get_elem?-append_suc :
      (xs : List A) (y z : A) (ys : List A)
      → get_elem? (xs ++ y ∷ z ∷ ys) (suc (length xs)) ≡ some z
  get_elem?-append_suc [] y z ys = refl
  get_elem?-append_suc (x ∷ xs) y z ys = get_elem?-append_suc xs y z ys

  take-append : (xs ys : List A) → take (length xs) (xs ++ ys) ≡ xs
  unfolding take
  take-append [] ys = refl
  take-append (x ∷ xs) ys = ap (λ l. x ∷ l) (take-append xs ys)

  drop-append :
      (xs : List A) (y z : A) (ys : List A) → drop (suc (suc (length xs))) (xs ++ y ∷ z ∷ ys) ≡ ys
  unfolding drop
  drop-append [] y z ys = refl
  drop-append (x ∷ xs) y z ys = drop-append xs y z ys

module _ {J : Type 0} where
  -- One walk along the patch.
  unfoldable pub coalesced : List (Operation J) → List (Operation J)
  coalesced [] = []
  coalesced (x ∷ []) = x ∷ []
  coalesced (x ∷ y ∷ ps) =
      let one = replacement y ∷ coalesced ps in
      let none_here = x ∷ coalesced (y ∷ ps) in if coalesces x y then one else none_here

  coalesce_at-append :
      (pre ps : List (Operation J)) (x y : Operation J)
      → coalesce_at (length pre + 1) (some x) (some y) (pre ++ x ∷ y ∷ ps)
        ≡ (if coalesces x y then pre ++ replacement y ∷ ps else pre ++ x ∷ y ∷ ps)
  unfolding coalesce_at
  coalesce_at-append pre ps x y =
      let c : length pre + 1 + 1 ≡ suc (suc (length pre)) = omega arith in
      let b : (length pre + 1) - 1 ≡ length pre = omega arith in
      rw (c, b, take-append pre (x ∷ y ∷ ps), drop-append pre x y ps) refl

  body-append :
      (pre ps : List (Operation J)) (x y : Operation J)
      → body (length pre + 1) (pre ++ x ∷ y ∷ ps)
        ≡ (if coalesces x y then pre ++ replacement y ∷ ps else pre ++ x ∷ y ∷ ps)
  unfolding body
  body-append pre ps x y =
      let a : length pre + 1 ≡ suc (length pre) = omega arith in
      let second : get_elem? (pre ++ x ∷ y ∷ ps) (length pre + 1) ≡ some y =
        rw a (get_elem?-append_suc pre x y ps) in
      let b : (length pre + 1) - 1 ≡ length pre = omega arith in
      let first : get_elem? (pre ++ x ∷ y ∷ ps) ((length pre + 1) - 1) ≡ some x =
        rw b (get_elem?-append pre x (y ∷ ps)) in
      rw (first, second) (coalesce_at-append pre ps x y)

  loop_end :
      (fuel i : ℕ) (patch : List (Operation J))
      → ltb i (length patch) ≡ false
      → loop fuel i patch ≡ patch
  unfolding loop
  loop_end zero i patch h = refl
  loop_end (suc fuel) i patch h = rw h refl

  loop-suc :
      (fuel i : ℕ) (patch : List (Operation J))
      → ltb i (length patch) ≡ true
      → loop (suc fuel) i patch ≡ loop fuel (i + 1) (body i patch)
  unfolding loop
  loop-suc fuel i patch h = rw h refl

  loop-append :
      (fuel : ℕ) (pre ps : List (Operation J))
      → length ps ≤ fuel + 1
      → loop fuel (length pre + 1) (pre ++ ps) ≡ pre ++ coalesced ps
  unfolding coalesced
  loop-append fuel pre [] h =
      loop_end fuel (length pre + 1) (pre ++ []) (ground (arith, length-append pre []))
  loop-append fuel pre (x ∷ []) h =
      loop_end fuel (length pre + 1) (pre ++ x ∷ []) (ground (arith, length-append pre (x ∷ [])))
  loop-append zero pre (x ∷ y ∷ ps) h = absurd (omega (arith, h))
  loop-append (suc fuel) pre (x ∷ y ∷ ps) h =
      let inside : ltb (length pre + 1) (length (pre ++ x ∷ y ∷ ps)) ≡ true =
        ground (arith, length-append pre (x ∷ y ∷ ps)) in
      rw (loop-suc fuel (length pre + 1) (pre ++ x ∷ y ∷ ps) inside, body-append pre ps x y)
        (elim (Bool-cases (coalesces x y)) [
          | inl p ↦ rw p (
              next (replacement y) ps
                (loop-append fuel (pre ++ replacement y ∷ []) ps (omega (arith, h))))
          | inr p ↦
              rw p (next x (y ∷ ps) (loop-append fuel (pre ++ x ∷ []) (y ∷ ps) (omega (arith, h))))
        ])
    where
      next :
          (z : Operation J) (zs : List (Operation J))
          → loop fuel (length (pre ++ z ∷ []) + 1) ((pre ++ z ∷ []) ++ zs)
            ≡ (pre ++ z ∷ []) ++ coalesced zs
          → loop fuel (length pre + 1 + 1) (pre ++ z ∷ zs) ≡ pre ++ z ∷ coalesced zs
      next z zs q =
          rw
            (
              sym (append_assoc pre (z ∷ []) zs),
              sym (append_assoc pre (z ∷ []) (coalesced zs)),
              sym (length-append pre (z ∷ [])),
            )
            q

  -- The loop, which changes the patch as it goes, makes one walk: each remove followed by an add of the
  -- same path becomes one replace of the path by the added value, and all else stays in order.
  pub create_json_patch-eq-coalesced :
      (patch : List (Operation J)) → create_json_patch patch ≡ coalesced patch
  unfolding create_json_patch
  create_json_patch-eq-coalesced patch = loop-append (length patch) [] patch (omega arith)

module _ {J D : Type 0} (apply : Operation J → D → Option D) where
  abbrev pub apply_all : List (Operation J) → D → Option D
  apply_all [] d = some d
  apply_all (x ∷ xs) d = elim (apply x d) [ none ↦ none | some e ↦ apply_all xs e ]

  -- A replace does what a remove does and then an add, as RFC 6902 has it.
  abbrev pub IsReplace : Type 0
  IsReplace =
      (x y : Operation J) (d : D)
      → coalesces x y ≡ true
      → apply (replacement y) d ≡ (elim (apply x d) [ none ↦ none | some e ↦ apply y e ])

  apply_all-coalesced :
      (ps : List (Operation J)) (d : D) → IsReplace → apply_all (coalesced ps) d ≡ apply_all ps d
  unfolding coalesced
  apply_all-coalesced [] d law = refl
  apply_all-coalesced (x ∷ []) d law = refl
  apply_all-coalesced (x ∷ y ∷ ps) d law = elim (Bool-cases (coalesces x y)) [
    | inl p ↦ elim (Option-cases (apply x d)) [
      | inl q ↦ ground (arith, p, q, law x y d p)
      | inr (e, q) ↦ elim (Option-cases (apply y e)) [
        | inl r ↦ ground (arith, p, q, r, law x y d p)
        | inr (f, r) ↦ ground (arith, p, q, r, law x y d p, apply_all-coalesced ps f law)
      ]
    ]
    | inr p ↦ elim (Option-cases (apply x d)) [
      | inl q ↦ ground (arith, p, q)
      | inr (e, q) ↦ ground (arith, p, q, apply_all-coalesced (y ∷ ps) e law)
    ]
  ]

  -- Where a replace does what a remove and an add do, the patch does what the operations did that it was
  -- made of, to every value.
  pub apply_all-create_json_patch :
      (ps : List (Operation J)) (d : D)
      → IsReplace
      → apply_all (create_json_patch ps) d ≡ apply_all ps d
  apply_all-create_json_patch ps d law =
      rw (create_json_patch-eq-coalesced ps) (apply_all-coalesced ps d law)
