-- ===== src/Model/Meta/Keys.antt =====
-- Which entries of a map are shown for a list of keys.
use xgql.Prelude.{
  ◌≡◌, refl, sym, ◌∙◌, Bool, true, false, Option, none, some, List, [], ◌∷◌, Text, text_eq, ◌==◌,
  Dict, lookup, lookup-insert, text_beq_iff, beq_refl, Bool-cases, ◌⊎◌, exists_in, if◌then◌else◌,
  arith, inl, inr,
}
use xgql.Model.Meta.{Data, put, select_loop, select}

-- An entry of a map that may be nil.
abbrev pub entry : Data → Text → Option Text
entry none k = none
entry (some m) k = lookup m k

-- Whether a key is asked for.
abbrev pub asks : Option (List Text) → Text → Bool
asks none k = true
asks (some keys) k = exists_in (λ j. j == k) keys

-- What the loop has for a key before it is nothing, or what the data has.
abbrev IsKept : Dict Text Text → Dict Text Text → Text → Type 0
IsKept m out k = (lookup out k ≡ none) ⊎ (lookup out k ≡ lookup m k)

-- An entry that the loop meets.
put_same :
    (m out : Dict Text Text) (k : Text) (v : Option Text)
    → lookup m k ≡ v
    → IsKept m out k
    → lookup (put k v out) k ≡ lookup m k
unfolding put
put_same m out k none p (inl h) = h ∙ sym p
put_same m out k none p (inr h) = h
put_same m out k (some v) p h = lookup-insert out k k v ∙ rw (beq_refl k) (sym p)

put_other :
    (out : Dict Text Text) (j k : Text) (v : Option Text)
    → (j == k) ≡ false
    → lookup (put j v out) k ≡ lookup out k
unfolding put
put_other out j k none q = refl
put_other out j k (some v) q = lookup-insert out j k v ∙ rw q refl

select_loop-lookup :
    (m out : Dict Text Text) (keys : List Text) (k : Text)
    → IsKept m out k
    → lookup (select_loop m out keys) k
      ≡ (if exists_in (λ j. j == k) keys then lookup m k else lookup out k)
unfolding select_loop exists_in
select_loop-lookup m out [] k h = refl
select_loop-lookup m out (j ∷ keys) k h = elim (Bool-cases (j == k)) [
  | inl q ↦
      let same : lookup (put j (lookup m j) out) k ≡ lookup m k =
        rw ((text_beq_iff j k).0 q) (put_same m out k (lookup m k) refl h) in
      select_loop-lookup m (put j (lookup m j) out) keys k (inr same) ∙ ground (arith, q, same)
  | inr q ↦
      let same = put_other out j k (lookup m j) q in
      select_loop-lookup m (put j (lookup m j) out) keys k (rw same h) ∙ ground (arith, q, same)
]

-- `Labels`, `Annotations` and `Data` show of each key what the map has for it, if the key is asked for or
-- no keys are given, and nothing otherwise.
select-entry :
    (m : Data) (keys : Option (List Text)) (k : Text)
    → entry (select m keys) k ≡ (if asks keys k then entry m k else none)
unfolding select lookup
select-entry none none k = refl
select-entry none (some keys) k = ground arith
select-entry (some m) none k = refl
select-entry (some m) (some keys) k = select_loop-lookup m [] keys k (inl refl)
