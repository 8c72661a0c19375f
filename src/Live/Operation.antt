-- ===== src/Live/Operation.antt =====
-- MutateOperationContext of internal/live_query/extension.go: a subscription to `liveQuery` alone becomes
-- a query. `S` is a selection set, `N` an int64, and `collect` is CollectFields of gqlgen.
use xgql.Prelude.{
  ◌≡◌, refl, sym, ap, ◌∙◌, ◌⊎◌, inl, inr, Bool-cases, Bool, true, false, ◌&&◌, not, Option, none,
  some, List, [], ◌∷◌, Text, lit, text_eq, ◌==◌, if◌then◌else◌, arith,
}
use xgql.Live.Responses.{LiveQueryStats}

pub data Kind : Type 0 where
  query mutation subscription : Kind

unfoldable pub is_subscription : Kind → Bool
is_subscription Kind.subscription = true
is_subscription _ = false

-- A collected field: its `throttle` argument is `none` where it is no int64.
pub record Field (S N : Type 0) : Type 0 where
  pub name : Text
  pub throttle : Option N
  pub selection_set : S

-- The extension that marks a live query.
pub record Extension (D N : Type 0) : Type 0 where
  pub throttle : N
  pub stats : LiveQueryStats D

-- What the function reads and writes of an OperationContext.
pub record Context (S D N : Type 0) : Type 0 where
  pub kind : Kind
  pub selection_set : S
  pub extension : Option (Extension D N)

abbrev pub is_live_query : {S N : Type 0} → List (Field S N) → Bool
is_live_query (f ∷ []) = f.name == lit "liveQuery"
is_live_query _ = false

module _ {S D N : Type 0} (collect : S → List (Field S N)) where
  -- A missing throttle makes the type assertion panic: `none`.
  unfoldable pub live_context : Context S D N → Field S N → Option N → Option (Context S D N)
  live_context rc f none = none
  live_context rc f (some n) = some (record {
    kind = Kind.query;
    selection_set = f.selection_set;
    extension = some (record { throttle = n; stats = record { revisions = []; prev_data = [] } });
  })

  unfoldable pub with_fields : Context S D N → List (Field S N) → Option (Context S D N)
  unfolding live_context
  with_fields rc (f ∷ []) =
      if not (f.name == lit "liveQuery") then some rc else live_context rc f f.throttle
  with_fields rc _ = some rc

  -- MutateOperationContext
  unfoldable pub mutate_operation_context : Context S D N → Option (Context S D N)
  unfolding with_fields is_subscription
  mutate_operation_context rc =
      if not (is_subscription rc.kind) then some rc else with_fields rc (collect rc.selection_set)

  with_fields-other :
      (rc : Context S D N) (fs : List (Field S N))
      → is_live_query fs ≡ false
      → with_fields rc fs ≡ some rc
  unfolding with_fields
  with_fields-other rc [] h = refl
  with_fields-other rc (f ∷ []) h = ground (arith, h)
  with_fields-other rc (f ∷ g ∷ fs) h = refl

  -- An operation that is no subscription, or that has other fields, or more, is left alone.
  mutate_operation_context-other :
      (rc : Context S D N)
      → (is_subscription rc.kind && is_live_query (collect rc.selection_set)) ≡ false
      → mutate_operation_context rc ≡ some rc
  unfolding mutate_operation_context
  mutate_operation_context-other rc h =
      ground (arith, h, with_fields-other rc (collect rc.selection_set))

  live_context-query :
      (rc rc' : Context S D N) (f : Field S N) (o : Option N)
      → live_context rc f o ≡ some rc'
      → is_subscription rc'.kind ≡ false
  unfolding live_context is_subscription
  live_context-query rc rc' f none h = absurd (ground (arith, h))
  live_context-query rc rc' f (some n) h = ground (arith, h)

  settled :
      (rc rc' : Context S D N) (fs : List (Field S N))
      → with_fields rc fs ≡ some rc'
      → (rc ≡ rc') ⊎ (is_subscription rc'.kind ≡ false)
  unfolding with_fields
  settled rc rc' [] h = inl (ground (arith, h))
  settled rc rc' (f ∷ g ∷ fs) h = inl (ground (arith, h))
  settled rc rc' (f ∷ []) h = elim (Bool-cases (f.name == lit "liveQuery")) [
    | inl e ↦ inr (live_context-query rc rc' f f.throttle (ground (arith, e, h)))
    | inr e ↦ inl (ground (arith, e, h))
  ]

  -- An operation is mutated once: what came of it is left alone. It is the operation that it was, unless
  -- this was a subscription to `liveQuery` alone, and then it is no subscription any more.
  mutate_operation_context-settled :
      (rc rc' : Context S D N)
      → mutate_operation_context rc ≡ some rc'
      → (mutate_operation_context rc' ≡ some rc')
        × ((rc ≡ rc')
            ⊎ ((is_subscription rc.kind && is_live_query (collect rc.selection_set)) ≡ true))
  unfolding mutate_operation_context
  mutate_operation_context-settled rc rc' h = (
    (elim (Bool-cases (is_subscription rc.kind)) [
      | inr e ↦ ground (arith, e, h)
      | inl e ↦ elim (settled rc rc' (collect rc.selection_set) (ground (arith, e, h))) [
        | inl q ↦ rw (sym q) (h ∙ sym (ap (λ r. some r) q))
        | inr q ↦ ground (arith, q)
      ]
    ]),
    (elim (Bool-cases (is_subscription rc.kind && is_live_query (collect rc.selection_set))) [
      | inl e ↦ inr e
      | inr e ↦ inl (ground (arith, h, mutate_operation_context-other rc e))
    ]),
  )
