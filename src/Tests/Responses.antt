-- ===== src/Tests/Responses.antt =====
-- Patches and responses of internal/live_query, where a JSON value is a number and a patch names the
-- new one.
use xgql.Prelude.{
  ℕ, ◌≡◌, refl, true, false, Option, none, some, List, [], ◌∷◌, lit, text_eq, lookup, nat_beq,
  if◌then◌else◌, arith,
}
use xgql.Live.Patch.{Kind, Operation, create_json_patch, coalesces, replacement, is_remove, is_add}
use xgql.Live.Patch.Coalesce.{
  apply_all, IsReplace, coalesced, create_json_patch-eq-coalesced, apply_all-create_json_patch,
}
use xgql.Live.Responses.{Response, LiveQueryStats, stream}
use xgql.Live.Responses.View.{view, latest, IsDiff, stream-view}

abbrev rm : Operation ℕ
rm = record { op = Kind.remove; path = lit "/a"; from = []; value = none }

abbrev ad : Operation ℕ
ad = record { op = Kind.add; path = lit "/a"; from = []; value = some 3 }

create_json_patch-eq-coalesced_example :
    create_json_patch (rm ∷ ad ∷ ad ∷ []) ≡ coalesced (rm ∷ ad ∷ ad ∷ [])
create_json_patch-eq-coalesced_example = create_json_patch-eq-coalesced (rm ∷ ad ∷ ad ∷ [])

-- The member `/a` of an object, as far as there is one.
abbrev apply_kind : Kind → Option ℕ → Option ℕ → Option (Option ℕ)
apply_kind Kind.add v d = some v
apply_kind Kind.remove v none = none
apply_kind Kind.remove v (some n) = some none
apply_kind Kind.replace v none = none
apply_kind Kind.replace v (some n) = some v
apply_kind Kind.move v d = none

abbrev apply_one : Operation ℕ → Option ℕ → Option (Option ℕ)
apply_one o d = apply_kind o.op o.value d

apply_one-IsReplace : IsReplace apply_one
unfolding coalesces replacement is_remove is_add
apply_one-IsReplace x y d h = go x.op y.op x.value y.value d (ground (arith, h)) (ground (arith, h))
  where
    go :
        (k l : Kind) (v w d : Option ℕ)
        → is_remove k ≡ true
        → is_add l ≡ true
        → apply_kind Kind.replace w d
          ≡ (elim (apply_kind k v d) [ none ↦ none | some e ↦ apply_kind l w e ])
    go Kind.remove Kind.add v w none p q = refl
    go Kind.remove Kind.add v w (some n) p q = refl
    go Kind.remove Kind.remove v w d p q = absurd (ground arith)
    go Kind.remove Kind.replace v w d p q = absurd (ground arith)
    go Kind.remove Kind.move v w d p q = absurd (ground arith)
    go Kind.add l v w d p q = absurd (ground arith)
    go Kind.replace l v w d p q = absurd (ground arith)
    go Kind.move l v w d p q = absurd (ground arith)

apply_all-create_json_patch_example :
    apply_all apply_one (create_json_patch (rm ∷ ad ∷ ad ∷ [])) (some 1)
    ≡ apply_all apply_one (rm ∷ ad ∷ ad ∷ []) (some 1)
apply_all-create_json_patch_example =
    apply_all-create_json_patch apply_one (rm ∷ ad ∷ ad ∷ []) (some 1) apply_one-IsReplace

-- The patch from one number to another is the other, or nothing where they are equal.
abbrev create : ℕ → ℕ → Option (List ℕ)
create p d = some (if nat_beq p d then [] else d ∷ [])

abbrev apply : List ℕ → ℕ → Option ℕ
apply [] p = some p
apply (d ∷ ops) p = some d

apply-IsDiff : IsDiff create apply
apply-IsDiff p d = (if nat_beq p d then [] else d ∷ [], refl, ground arith)

abbrev response : ℕ → Option (Response ℕ)
response d = some (record { path = []; data_ = d; errors = 0 })

abbrev empty : LiveQueryStats ℕ
empty = record { revisions = []; prev_data = [] }

abbrev outputs : List (Option (Response ℕ))
outputs = response 1 ∷ none ∷ response 1 ∷ none ∷ response 2 ∷ []

stream-view_example :
    (view create apply [] (stream create outputs empty).sent none ≡ latest [] outputs none)
    × ((stream create outputs empty).panicked ≡ false)
unfolding lookup
stream-view_example = stream-view create apply [] outputs empty none (λ q. refl) apply-IsDiff refl
