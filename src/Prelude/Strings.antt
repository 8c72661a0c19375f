-- ===== src/Prelude/Strings.antt =====
-- What the program uses of Go's `strings` on byte texts.
use mathlib.Core.Path.{◌≡◌, refl, ap}
use mathlib.Core.Bool.{Bool, true, false, ◌&&◌}
use mathlib.Core.Logic.{inl, inr}
use mathlib.Core.List.{List, [], ◌∷◌, ◌++◌}
use native.Mathlib.Omega.{arith}
use Prim.Native.Nat.{ℕ}
use xgql.Prelude.Tests.{nat_beq, if◌then◌else◌, Bool-cases}
use xgql.Prelude.Lists.{All}
use xgql.Prelude.Order.{Text}

-- strings.HasPrefix(s, p)
unfoldable pub has_prefix : (p s : Text) → Bool
has_prefix [] s = true
has_prefix (a ∷ p) [] = false
has_prefix (a ∷ p) (b ∷ s) = nat_beq a b && has_prefix p s

drop_prefix : (p s : Text) → Text
drop_prefix [] s = s
drop_prefix (a ∷ p) [] = []
drop_prefix (a ∷ p) (b ∷ s) = drop_prefix p s

-- strings.TrimPrefix(s, p)
unfoldable pub trim_prefix : (p s : Text) → Text
unfolding drop_prefix
trim_prefix p s = if has_prefix p s then drop_prefix p s else s

unfoldable pub cons_head : ℕ → List Text → List Text
cons_head x [] = (x ∷ []) ∷ []
cons_head x (p ∷ ps) = (x ∷ p) ∷ ps

-- strings.Split at a separator of one byte.
unfoldable pub split_on : ℕ → Text → List Text
unfolding cons_head
split_on c [] = [] ∷ []
split_on c (x ∷ s) = let rest = split_on c s in if nat_beq x c then [] ∷ rest else cons_head x rest

unfoldable pub join_with : ℕ → List Text → Text
join_with c [] = []
join_with c (p ∷ []) = p
join_with c (p ∷ q ∷ ps) = p ++ c ∷ join_with c (q ∷ ps)

-- The separator does not stand in the text.
abbrev pub Avoids : ℕ → Text → Type 0
Avoids c s = All (λ x. nat_beq x c ≡ false) s

pub split_on_last : (c : ℕ) (s : Text) → Avoids c s → split_on c s ≡ s ∷ []
unfolding split_on
split_on_last c [] h = refl
split_on_last c (x ∷ s) h = rw (h.0, split_on_last c s h.1)

pub split_on-append : (c : ℕ) (s t : Text) → Avoids c s → split_on c (s ++ c ∷ t) ≡ s ∷ split_on c t
unfolding split_on
split_on-append c [] t h = ground arith
split_on-append c (x ∷ s) t h = rw (h.0, split_on-append c s t h.1)

join_with-cons_head : (c x : ℕ) (ps : List Text) → join_with c (cons_head x ps) ≡ x ∷ join_with c ps
unfolding join_with cons_head
join_with-cons_head c x [] = refl
join_with-cons_head c x (p ∷ []) = refl
join_with-cons_head c x (p ∷ q ∷ ps) = refl

split_on_some : (c : ℕ) (s : Text) → (p : Text) × (ps : List Text) × (split_on c s ≡ p ∷ ps)
unfolding split_on
split_on_some c [] = ([], [], refl)
split_on_some c (x ∷ s) = elim (Bool-cases (nat_beq x c)) [
  | inl h ↦ rw h ([], split_on c s, refl)
  | inr h ↦ let (p, ps, q) = split_on_some c s in rw (h, q) (x ∷ p, ps, refl)
]

join_with-nil :
    (c : ℕ) (ps : List Text) (p : Text) → join_with c ([] ∷ p ∷ ps) ≡ c ∷ join_with c (p ∷ ps)
unfolding join_with
join_with-nil c ps p = refl

pub join_with-split_on : (c : ℕ) (s : Text) → join_with c (split_on c s) ≡ s
unfolding split_on
join_with-split_on c [] = unfold join_with in refl
join_with-split_on c (x ∷ s) = elim (Bool-cases (nat_beq x c)) [
  | inl h ↦
      let (p, ps, q) = split_on_some c s in
      let ih = join_with-split_on c s in
      rw (h, q, join_with-nil c ps p) (rw (rw q at ih) (ground arith))
  | inr h ↦
      rw (h, join_with-cons_head c x (split_on c s)) (ap (λ t. x ∷ t) (join_with-split_on c s))
]

Avoids-cons_head :
    (c x : ℕ) (ps : List Text)
    → nat_beq x c ≡ false
    → All (Avoids c) ps
    → All (Avoids c) (cons_head x ps)
unfolding cons_head
Avoids-cons_head c x [] h k = ((h, tt), tt)
Avoids-cons_head c x (p ∷ ps) h k = ((h, k.0), k.1)

pub Avoids-split_on : (c : ℕ) (s : Text) → All (Avoids c) (split_on c s)
unfolding split_on
Avoids-split_on c [] = (tt, tt)
Avoids-split_on c (x ∷ s) = elim (Bool-cases (nat_beq x c)) [
  | inl h ↦ rw h (tt, Avoids-split_on c s)
  | inr h ↦ rw h (Avoids-cons_head c x (split_on c s) h (Avoids-split_on c s))
]

pub has_prefix-append : (p s : Text) → has_prefix p (p ++ s) ≡ true
unfolding has_prefix
has_prefix-append [] s = refl
has_prefix-append (a ∷ p) s = ground (arith, has_prefix-append p s)

drop_prefix-append : (p s : Text) → drop_prefix p (p ++ s) ≡ s
unfolding drop_prefix
drop_prefix-append [] s = refl
drop_prefix-append (a ∷ p) s = drop_prefix-append p s

pub trim_prefix-append : (p s : Text) → trim_prefix p (p ++ s) ≡ s
unfolding trim_prefix
trim_prefix-append p s = rw (has_prefix-append p s) (drop_prefix-append p s)
