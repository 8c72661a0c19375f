-- ===== src/Live/Responses/View.antt =====
-- What a client of InterceptOperation in internal/live_query/extension.go knows from the responses.
use xgql.Prelude.{
  ℕ, ◌≡◌, refl, inl, inr, false, Option, none, some, List, [], ◌∷◌, Text, lookup, text_eq,
  text_beq_iff, ◌==◌, nat_beq, if◌then◌else◌, arith, Bool-cases, lookup-insert,
}
use xgql.Live.Responses.{
  LiveQueryStats, Response, Payload, full, patch, Outcome, sends, waits, panics, Stream,
  revision_of, compared, outcome_from, outcome_of, respond, keep, stream,
}

-- What a handler gave last at a path.
abbrev pub latest : {D : Type 0} → Text → List (Option (Response D)) → Option D → Option D
latest k [] d = d
latest k (none ∷ rs) d = latest k rs d
latest k (some r ∷ rs) d = latest k rs (if r.path == k then some r.data_ else d)

module _ {D O : Type 0} (create : D → D → Option (List O)) (apply : List O → D → Option D) where
  -- What a client makes of a payload.
  abbrev pub taken : Payload D O → Option D → Option D
  taken (full d) old = some d
  taken (patch n ops) none = none
  taken (patch n ops) (some d) = apply ops d

  abbrev pub view : Text → List (Text × Payload D O) → Option D → Option D
  view k [] d = d
  view k ((j, p) ∷ ps) d = view k ps (if j == k then taken p d else d)

  -- A patch is always made, and takes the one value to the other.
  abbrev pub IsDiff : Type 0
  IsDiff = (p d : D) → (ops : List O) × (create p d ≡ some ops) × (apply ops p ≡ some d)

  -- What becomes of a response leaves the client with its data, also when nothing is sent.
  abbrev After : Option D → D → Outcome D O → Type 0
  After old d (sends p) = taken p old ≡ some d
  After old d waits = old ≡ some d
  After old d panics = ⊥

  After-compared :
      (n e : ℕ) (p d : D) (o : Option (List O))
      → ((q : D) → apply [] q ≡ some q)
      → (ops : List O) → o ≡ some ops
      → apply ops p ≡ some d
      → After (some p) d (compared create n e d o)
  unfolding compared
  After-compared n e p d none nil ops h a = absurd (ground arith)
  After-compared n e p d (some []) nil ops h a = elim (Bool-cases (nat_beq e 0)) [
    | inl q ↦ rw q (ground (arith, nil p))
    | inr q ↦ rw q refl
  ]
  After-compared n e p d (some (x ∷ xs)) nil ops h a = ground (arith, h, a)

  After-outcome_from :
      (n : ℕ) (r : Response D) (old : Option D)
      → ((q : D) → apply [] q ≡ some q)
      → IsDiff
      → After old r.data_ (outcome_from create n r old)
  unfolding outcome_from
  After-outcome_from n r none nil law = refl
  After-outcome_from n r (some prev) nil law =
      let (ops, made, a) = law prev r.data_ in
      After-compared n r.errors prev r.data_ (create prev r.data_) nil ops made a

  After-outcome_of :
      (s : LiveQueryStats D) (r : Response D)
      → ((q : D) → apply [] q ≡ some q)
      → IsDiff
      → After (lookup s.prev_data r.path) r.data_ (outcome_of create s r)
  unfolding outcome_of
  After-outcome_of s r =
      After-outcome_from (revision_of (lookup s.revisions r.path)) r (lookup s.prev_data r.path)

  kept :
      (r : Response D) (s : LiveQueryStats D) (k : Text) (d : Option D)
      → d ≡ lookup s.prev_data k
      → (if r.path == k then some r.data_ else d) ≡ lookup (keep create r s).prev_data k
  unfolding keep
  kept r s k d h = ground (arith, h, lookup-insert s.prev_data r.path k r.data_)

  -- The client's value at `k` after the response is the response's data, or what it was.
  respond-view :
      (k : Text) (r : Response D) (s : LiveQueryStats D) (d e : Option D) (t waiting : Stream D O)
      (o : Outcome D O)
      → After (lookup s.prev_data r.path) r.data_ o
      → d ≡ lookup s.prev_data k
      → (view k t.sent (if r.path == k then some r.data_ else d) ≡ e) × (t.panicked ≡ false)
      → (d ≡ (if r.path == k then some r.data_ else d)
          → (view k waiting.sent d ≡ e) × (waiting.panicked ≡ false))
      → (view k (respond r.path s t waiting o).sent d ≡ e)
        × ((respond r.path s t waiting o).panicked ≡ false)
  unfolding respond
  respond-view k r s d e t waiting (sends p) a h x y = elim (Bool-cases (r.path == k)) [
    | inl q ↦ ground (arith, a, h, x, q, text_beq_iff r.path k)
    | inr q ↦ ground (arith, x, q)
  ]
  respond-view k r s d e t waiting waits a h x y = elim (Bool-cases (r.path == k)) [
    | inl q ↦ y (ground (arith, a, h, q, text_beq_iff r.path k))
    | inr q ↦ y (ground (arith, q))
  ]
  respond-view k r s d e t waiting panics a h x y = absurd a

  -- Where a patch can always be made and leads from the one value to the other, a client that takes
  -- each full value and applies each patch has, at every path, what the handlers gave last there, though
  -- nothing is sent for an unchanged value; and the code does not panic.
  pub stream-view :
      (k : Text) (rs : List (Option (Response D))) (s : LiveQueryStats D) (d : Option D)
      → ((q : D) → apply [] q ≡ some q)
      → IsDiff
      → d ≡ lookup s.prev_data k
      → (view k (stream create rs s).sent d ≡ latest k rs d)
        × ((stream create rs s).panicked ≡ false)
  unfolding stream
  stream-view k [] s d nil law h = (refl, refl)
  stream-view k (none ∷ rs) s d nil law h = stream-view k rs s d nil law h
  stream-view k (some r ∷ rs) s d nil law h =
      respond-view k r s d (latest k rs (if r.path == k then some r.data_ else d))
        (stream create rs (keep create r s)) (stream create rs s) (outcome_of create s r)
        (After-outcome_of s r nil law) h
        (stream-view k rs (keep create r s) (if r.path == k then some r.data_ else d) nil law
          (kept r s k d h))
        (λ q. rw⁻¹ q (stream-view k rs s d nil law h))
