-- ===== src/Live/Responses.antt =====
-- The responses of a live query: InterceptOperation of internal/live_query/extension.go. `D` is a JSON
-- value, `O` an operation of a patch, and `create` is CreateJSONPatch, `none` where it fails. The data
-- of a response are taken as parsed: what cannot be parsed makes the code panic.
pub mod View
use xgql.Prelude.{
  ℕ, ◌+◌, Bool, true, false, Option, none, some, List, [], ◌∷◌, Text, Dict, lookup, insert, text_eq,
  is_empty, nat_beq, if◌then◌else◌,
}

-- The fields of LiveQueryStats that change.
pub record LiveQueryStats (D : Type 0) : Type 0 where
  pub revisions : Dict Text ℕ
  pub prev_data : Dict Text D

-- A response of the handler: its path, its data, and how many errors it has.
pub record Response (D : Type 0) : Type 0 where
  pub path : Text
  pub data_ : D
  pub errors : ℕ

-- What a client gets in place of the data: the data, or a patch with its revision.
pub data Payload (D O : Type 0) : Type 0 where
  full : D → Payload D O
  patch : ℕ → List O → Payload D O

-- What becomes of a response: it is sent, held back as nothing changed, or the code panics.
pub data Outcome (D O : Type 0) : Type 0 where
  sends : Payload D O → Outcome D O
  waits panics : Outcome D O

-- What was sent, the stats, how often the live query was reset, and whether the code panicked.
pub record Stream (D O : Type 0) : Type 0 where
  pub sent : List (Text × Payload D O)
  pub stats : LiveQueryStats D
  pub resets : ℕ
  pub panicked : Bool

-- A missing revision reads as 0.
unfoldable pub revision_of : Option ℕ → ℕ
revision_of none = 0
revision_of (some n) = n

-- What follows a response: `t` after it is sent, `waiting` where it is held back.
unfoldable pub respond :
    {D O : Type 0} → Text → LiveQueryStats D → Stream D O → Stream D O → Outcome D O → Stream D O
respond path s t waiting (sends p) = record t { sent = (path, p) ∷ t.sent }
respond path s t waiting waits = waiting
respond path s t waiting panics = record { sent = []; stats = s; resets = 0; panicked = true }

module _ {D O : Type 0} (create : D → D → Option (List O)) where
  unfoldable pub compared : ℕ → ℕ → D → Option (List O) → Outcome D O
  compared revision errors d none = panics
  compared revision errors d (some diff) =
      if is_empty diff
      then if nat_beq errors 0 then waits else sends (full d)
      else sends (patch revision diff)

  unfoldable pub outcome_from : ℕ → Response D → Option D → Outcome D O
  outcome_from revision r none = sends (full r.data_)
  outcome_from revision r (some prev) = compared revision r.errors r.data_ (create prev r.data_)

  -- The body of the loop, from `ReadJsonString` on.
  unfoldable pub outcome_of : LiveQueryStats D → Response D → Outcome D O
  outcome_of s r =
      outcome_from (revision_of (lookup s.revisions r.path)) r (lookup s.prev_data r.path)

  -- The revision and the data that are kept of a response that is sent.
  unfoldable pub keep : Response D → LiveQueryStats D → LiveQueryStats D
  keep r s = record {
    revisions = insert s.revisions r.path (revision_of (lookup s.revisions r.path) + 1);
    prev_data = insert s.prev_data r.path r.data_;
  }

  -- The calls of the response handler that InterceptOperation returns, over what the handlers inside
  -- give: `none` is the end of one, after which the next is made when the live query is ready. The list
  -- ends where the context does.
  unfoldable pub stream : List (Option (Response D)) → LiveQueryStats D → Stream D O
  stream [] s = record { sent = []; stats = s; resets = 0; panicked = false }
  stream (none ∷ rs) s = let t = stream rs s in record t { resets = t.resets + 1 }
  stream (some r ∷ rs) s =
      let waiting = stream rs s in
      let t = stream rs (keep r s) in respond r.path s t waiting (outcome_of s r)
