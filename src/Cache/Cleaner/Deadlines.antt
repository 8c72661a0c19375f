-- ===== src/Cache/Cleaner/Deadlines.antt =====
-- What internal/cache/cleaner.go promises of one key: the object last scheduled under it is cleaned
-- up once, by the first collection at or after its deadline.
use xgql.Prelude.{ℕ, Option, none, some, List, [], ◌∷◌, Eq, ◌==◌, ltb, nat_beq, if◌then◌else◌}

-- The object of a key and its deadline, if one is scheduled.
abbrev pub Deadline : Type 0 → Type 0
Deadline T = Option (T × ℕ)

module _ {T : Type 0} where
  -- Scheduling again at the same instant keeps the object; at any other it replaces it.
  abbrev pub reschedule : T → ℕ → Deadline T → Deadline T
  reschedule obj at none = some (obj, at)
  reschedule obj at (some (old, t)) = if nat_beq t at then some (old, t) else some (obj, at)

  abbrev pub remaining : ℕ → Deadline T → Deadline T
  remaining now none = none
  remaining now (some (obj, t)) = if ltb now t then some (obj, t) else none

  abbrev pub due : ℕ → Deadline T → List T
  due now none = []
  due now (some (obj, t)) = if ltb now t then [] else obj ∷ []

-- The calls of a cleaner.
pub data Op (T : Type 0) : Type 0 where
  schedule : T → ℕ → Op T
  collect : ℕ → Op T

module _ {T K : Type 0} ⦃e : Eq K⦄ (key_fn : T → K) where
  -- The objects of one key.
  unfoldable pub of_key : K → List T → List T
  of_key k [] = []
  of_key k (x ∷ xs) = let rest = of_key k xs in if key_fn x == k then x ∷ rest else rest

  -- What each collection cleans up of one key.
  unfoldable pub cleaned : K → Deadline T → List (Op T) → List (List T)
  cleaned k d [] = []
  cleaned k d (schedule obj at ∷ ops) =
      cleaned k (if key_fn obj == k then reschedule obj at d else d) ops
  cleaned k d (collect now ∷ ops) = due now d ∷ cleaned k (remaining now d) ops
