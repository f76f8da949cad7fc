-- ===== src/Prelude/Members.antt =====
-- Python's `set` as a list of which only the members count: `in`, `add` and `discard`.
use mathlib.Core.Path.{◌≡◌, refl, sym, ap, ◌∙◌}
use mathlib.Core.Bool.{Bool, false, ◌||◌, ◌&&◌, not}
use mathlib.Core.List.{List, [], ◌∷◌, ◌++◌}
use mathlib.Core.Logic.{inl, inr}
use native.Mathlib.Omega.{arith}
use linkable.Prelude.Tests.{if◌then◌else◌, Bool-cases}
use linkable.Prelude.Equality.{Eq, ◌==◌, ==_iff}

module _ {ℓ} {K : Type ℓ} ⦃e : Eq K⦄ where
  -- x in s
  unfoldable pub is_in : K → List K → Bool
  is_in x [] = false
  is_in x (y ∷ s) = x == y || is_in x s

  -- s.add(x)
  unfoldable pub add : List K → K → List K
  add s x = x ∷ s

  -- s.discard(x)
  unfoldable pub discard : List K → K → List K
  discard [] x = []
  discard (y ∷ s) x = let rest = discard s x in if y == x then rest else y ∷ rest

  pub is_in-add : (s : List K) (x y : K) → is_in y (add s x) ≡ (y == x || is_in y s)
  unfolding is_in add
  is_in-add s x y = refl

  pub is_in-discard : (s : List K) (x y : K) → is_in y (discard s x) ≡ (not (y == x) && is_in y s)
  unfolding is_in discard
  is_in-discard [] x y = ground arith
  is_in-discard (z ∷ s) x y =
      ground (arith, is_in-discard s x y, ==_iff z x, ==_iff y z, ==_iff y x)

  pub is_in-append : (s t : List K) (y : K) → is_in y (s ++ t) ≡ (is_in y s || is_in y t)
  unfolding is_in
  is_in-append [] t y = refl
  is_in-append (x ∷ s) t y = ground (arith, is_in-append s t y)

  pub is_in-discard_head :
      (s t : List K) (x y : K)
      → is_in y s ≡ is_in y (x ∷ t)
      → is_in x t ≡ false
      → is_in y (discard s x) ≡ is_in y t
  unfolding is_in
  is_in-discard_head s t x y h fresh = elim (Bool-cases (y == x)) [
    | inl same ↦
        is_in-discard s x y ∙ rw same (sym (ap (λ z. is_in z t) ((==_iff y x).0 same) ∙ fresh))
    | inr other ↦ is_in-discard s x y ∙ rw (other, h) (rw other refl)
  ]

  -- What is before a new last one is apart from it.
  pub is_in-last :
      (s : List K) (x y : K)
      → is_in y (x ∷ s) ≡ false
      → is_in x s ≡ false
      → is_in x (s ++ y ∷ []) ≡ false
  unfolding is_in
  is_in-last s x y h fresh = ground (arith, is_in-append s (y ∷ []) x, ==_iff x y, ==_iff y x)
