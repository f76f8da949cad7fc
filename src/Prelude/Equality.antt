-- ===== src/Prelude/Equality.antt =====
-- Boolean equality of keys: numbers, texts and paths of texts.
use Prim.Native.Nat.{ℕ}
use Prim.Native.Char.{code}
use Prim.Native.String.{String}
use mathlib.Core.Path.{◌≡◌, refl, sym, ap, ◌∙◌}
use mathlib.Core.Logic.{◌↔◌}
use mathlib.Core.Bool.{Bool, true, false, ◌&&◌}
use mathlib.Core.List.{List, [], ◌∷◌}
use native.Mathlib.Omega.{arith}
use linkable.Prelude.Tests.{nat_eqb, nat_eqb_iff}

infix 50 ◌==◌
-- A type whose values a program compares.
pub record Eq {ℓ} (K : Type ℓ) : Type ℓ where
  pub equal : K → K → Bool
  pub equal_sound : (x y : K) → equal x y ≡ true → x ≡ y
  pub equal_self : (x : K) → equal x x ≡ true

abbrev pub ◌==◌ {ℓ} : {K : Type ℓ} ⦃e : Eq K⦄ → K → K → Bool
◌==◌ ⦃e⦄ = e.equal

pub ==_refl {ℓ} : {K : Type ℓ} ⦃e : Eq K⦄ (x : K) → (x == x) ≡ true
==_refl ⦃e⦄ = e.equal_self

pub ==_iff {ℓ} : {K : Type ℓ} ⦃e : Eq K⦄ (x y : K) → ((x == y) ≡ true) ↔ (x ≡ y)
==_iff ⦃e⦄ x y = (e.equal_sound x y, λ h. ap (e.equal x) (sym h) ∙ e.equal_self x)

instance abbrev pub nat_eq : Eq ℕ
nat_eq = record {
  equal = nat_eqb;
  equal_sound = λ m n. (nat_eqb_iff m n).0;
  equal_self = λ n. (nat_eqb_iff n n).1 refl;
}

module _ {ℓ} {A : Type ℓ} ⦃e : Eq A⦄ where
  unfoldable pub list_beq : List A → List A → Bool
  list_beq [] [] = true
  list_beq (x ∷ xs) (y ∷ ys) = x == y && list_beq xs ys
  list_beq _ _ = false

  pub list_beq_iff : (xs ys : List A) → (list_beq xs ys ≡ true) ↔ (xs ≡ ys)
  unfolding list_beq
  list_beq_iff [] [] = ground arith
  list_beq_iff (x ∷ xs) (y ∷ ys) = ground (arith, list_beq_iff xs ys, ==_iff x y)
  list_beq_iff [] (y ∷ ys) = ground arith
  list_beq_iff (x ∷ xs) [] = ground arith

instance abbrev pub list_eq {ℓ} : {A : Type ℓ} ⦃e : Eq A⦄ → Eq (List A)
list_eq = record {
  equal = list_beq;
  equal_sound = λ xs ys. (list_beq_iff xs ys).0;
  equal_self = λ xs. (list_beq_iff xs xs).1 refl;
}

-- A text is the list of its code points, and a byte string the list of its bytes.
abbrev pub Text : Type 0
Text = List ℕ

abbrev pub Bytes : Type 0
Bytes = List ℕ

abbrev pub codes : String → Text
codes String.[] = []
codes (String.◌∷◌ c s) = code c ∷ codes s
