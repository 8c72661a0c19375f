-- ===== src/Prelude/Order.antt =====
-- Decidable equality and strict orders as interfaces, with the instances for numbers and texts.
-- A Go string is a sequence of bytes, compared byte by byte: a `Text` is a list of numbers.
use Prim.Native.Nat.{ℕ}
use Prim.Native.Char.{code}
use Prim.Native.String.{String}
use mathlib.Core.Path.{◌≡◌, refl}
use mathlib.Core.Logic.{◌↔◌}
use mathlib.Core.Bool.{Bool, true, false, ◌&&◌, ◌||◌}
use mathlib.Core.List.{List, [], ◌∷◌}
use native.Mathlib.Omega.{arith}
use xgql.Prelude.Tests.{ltb, nat_beq, nat_beq_iff}

pub record Eq {ℓ} (A : Type ℓ) : Type ℓ where
  pub beq : A → A → Bool
  pub beq_iff : (x y : A) → (beq x y ≡ true) ↔ (x ≡ y)

-- A strict total order.
pub record Ord {ℓ} (A : Type ℓ) : Type ℓ where
  pub less : A → A → Bool
  pub less_irrefl : (a : A) → less a a ≡ false
  pub less_trans : (a b c : A) → less a b ≡ true → less b c ≡ true → less a c ≡ true
  pub less_total : (a b : A) → less a b ≡ false → less b a ≡ false → a ≡ b

infix 50 ◌==◌
abbrev pub ◌==◌ {ℓ} : {A : Type ℓ} ⦃e : Eq A⦄ → A → A → Bool
◌==◌ ⦃e⦄ = e.beq

abbrev pub Text : Type 0
Text = List ℕ

abbrev pub lit : String → Text
lit String.[] = []
lit (String.◌∷◌ c s) = code c ∷ lit s

unfoldable pub text_beq : Text → Text → Bool
text_beq [] [] = true
text_beq (a ∷ s) (b ∷ t) = nat_beq a b && text_beq s t
text_beq _ _ = false

pub text_beq_iff : (s t : Text) → (text_beq s t ≡ true) ↔ (s ≡ t)
unfolding text_beq
text_beq_iff [] [] = ground arith
text_beq_iff [] (b ∷ t) = ground arith
text_beq_iff (a ∷ s) [] = ground arith
text_beq_iff (a ∷ s) (b ∷ t) = ground (arith, text_beq_iff s t)

instance abbrev pub nat_eq : Eq ℕ
nat_eq = record { beq = nat_beq; beq_iff = nat_beq_iff }

instance abbrev pub text_eq : Eq Text
text_eq = record { beq = text_beq; beq_iff = text_beq_iff }

-- Go's `<` on strings.
unfoldable pub text_less : Text → Text → Bool
text_less [] [] = false
text_less [] (b ∷ t) = true
text_less (a ∷ s) [] = false
text_less (a ∷ s) (b ∷ t) = ltb a b || (nat_beq a b && text_less s t)

pub text_less_irrefl : (s : Text) → text_less s s ≡ false
unfolding text_less
text_less_irrefl [] = refl
text_less_irrefl (a ∷ s) = ground (arith, text_less_irrefl s)

pub text_less_trans :
    (s t u : Text) → text_less s t ≡ true → text_less t u ≡ true → text_less s u ≡ true
unfolding text_less
text_less_trans [] [] u h k = cc
text_less_trans [] (b ∷ t) [] h k = cc
text_less_trans [] (b ∷ t) (c ∷ u) h k = refl
text_less_trans (a ∷ s) [] u h k = cc
text_less_trans (a ∷ s) (b ∷ t) [] h k = cc
text_less_trans (a ∷ s) (b ∷ t) (c ∷ u) h k = ground (arith, text_less_trans s t u)

pub text_less_total : (s t : Text) → text_less s t ≡ false → text_less t s ≡ false → s ≡ t
unfolding text_less
text_less_total [] [] h k = refl
text_less_total [] (b ∷ t) h k = cc
text_less_total (a ∷ s) [] h k = cc
text_less_total (a ∷ s) (b ∷ t) h k = ground (arith, text_less_total s t)

instance abbrev pub text_ord : Ord Text
text_ord = record {
  less = text_less;
  less_irrefl = text_less_irrefl;
  less_trans = text_less_trans;
  less_total = text_less_total;
}
