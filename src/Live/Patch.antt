-- ===== src/Live/Patch.antt =====
-- CreateJSONPatch of internal/live_query/json_patch.go: a remove and an add of one path become a replace.
-- `J` is any JSON value.
pub mod Coalesce
use xgql.Prelude.{
  ℕ, zero, suc, ◌+◌, ◌-◌, Bool, true, false, ◌&&◌, Option, none, some, List, [], ◌∷◌, ◌++◌, Text,
  text_eq, ◌==◌, length, get_elem?, if◌then◌else◌, ltb,
}

pub data Kind : Type 0 where
  add remove replace move : Kind

pub record Operation (J : Type 0) : Type 0 where
  pub op : Kind
  pub path : Text
  pub from : Text
  pub value : Option J

unfoldable pub is_remove : Kind → Bool
is_remove Kind.remove = true
is_remove _ = false

unfoldable pub is_add : Kind → Bool
is_add Kind.add = true
is_add _ = false

module _ {A : Type 0} where
  unfoldable pub take : ℕ → List A → List A
  take zero xs = []
  take (suc n) [] = []
  take (suc n) (x ∷ xs) = x ∷ take n xs

  unfoldable pub drop : ℕ → List A → List A
  drop zero xs = xs
  drop (suc n) [] = []
  drop (suc n) (x ∷ xs) = drop n xs

module _ {J : Type 0} where
  -- Whether the body of the loop coalesces the two operations.
  unfoldable pub coalesces : Operation J → Operation J → Bool
  coalesces rm ad = rm.path == ad.path && is_remove rm.op && is_add ad.op

  unfoldable pub replacement : Operation J → Operation J
  replacement ad = record { op = Kind.replace; path = ad.path; from = []; value = ad.value }

  -- The body of the loop, for the operations at `i - 1` and `i`.
  unfoldable pub coalesce_at :
      ℕ → Option (Operation J) → Option (Operation J) → List (Operation J) → List (Operation J)
  coalesce_at i (some rm) (some ad) patch =
      if coalesces rm ad then take (i - 1) patch ++ replacement ad ∷ drop (i + 1) patch else patch
  coalesce_at i _ _ patch = patch

  unfoldable pub body : ℕ → List (Operation J) → List (Operation J)
  body i patch = coalesce_at i (get_elem? patch (i - 1)) (get_elem? patch i) patch

  -- `for i := 1; i < len(patch); i++`
  unfoldable pub loop : ℕ → ℕ → List (Operation J) → List (Operation J)
  loop zero i patch = patch
  loop (suc fuel) i patch =
      let rest = loop fuel (i + 1) (body i patch) in if ltb i (length patch) then rest else patch

  -- CreateJSONPatch, from the operations that the library's diff renders.
  unfoldable pub create_json_patch : List (Operation J) → List (Operation J)
  create_json_patch patch = loop (length patch) 1 patch
