-- ===== src/Prelude/Decimal.antt =====
-- `str(n)` of a natural number, `int` of its digits, and `str.zfill`.
use Prim.Native.Nat.{ℕ, zero, suc, ◌+◌, ◌-◌, ◌*◌, ◌/◌, ◌%◌, ◌^◌, ◌≤◌, ◌<◌}
use native.Mathlib.Nat.{pow-suc}
use mathlib.Core.Path.{◌≡◌, refl, ap, sym, ◌∙◌}
use mathlib.Core.List.{[], ◌∷◌, ◌++◌}
use native.Mathlib.Omega.{arith}
use linkable.Prelude.Tests.{ltb, if◌then◌else◌, Bool-cases, ltb→lt, ltb_false→le}
use linkable.Prelude.Int.{ℤ, pos, negsuc}
use linkable.Prelude.Lists.{length, length-append, All, All-append}
use linkable.Prelude.Equality.{Text}
use mathlib.Core.Logic.{◌≢◌, inl, inr}

-- The digits of n, with fuel for their count.
unfoldable pub digits_fuel : ℕ → ℕ → Text
digits_fuel zero n = []
digits_fuel (suc f) n =
    let more = digits_fuel f (n / 10) ++ (b'0' + n % 10) ∷ [] in
    if ltb n 10 then (b'0' + n) ∷ [] else more

-- str(n)
unfoldable pub to_text : ℕ → Text
unfolding digits_fuel
to_text n = digits_fuel (suc n) n

-- int(text) of a text of digits, from the value of the digits before.
unfoldable pub value_acc : ℕ → Text → ℕ
value_acc acc [] = acc
value_acc acc (c ∷ cs) = value_acc (acc * 10 + (c - b'0')) cs

unfoldable pub value : Text → ℕ
unfolding value_acc
value t = value_acc 0 t

abbrev pub IsDigit : ℕ → Type 0
IsDigit c = (b'0' ≤ c) × (c ≤ b'9')

value_acc-append :
    (acc : ℕ) (xs : Text) (c : ℕ)
    → value_acc acc (xs ++ c ∷ []) ≡ value_acc acc xs * 10 + (c - b'0')
unfolding value_acc
value_acc-append acc [] c = refl
value_acc-append acc (x ∷ xs) c = value_acc-append (acc * 10 + (x - b'0')) xs c

value-digits_fuel : (f n : ℕ) → n < f → value_acc 0 (digits_fuel f n) ≡ n
unfolding digits_fuel value_acc
value-digits_fuel zero n h = absurd (omega arith)
value-digits_fuel (suc f) n h = elim (Bool-cases (ltb n 10)) [
  | inl small ↦ rw small (omega arith)
  | inr large ↦
      rw (large, value_acc-append 0 (digits_fuel f (n / 10)) (b'0' + n % 10))
        (omega (
          arith,
          ltb_false→le n 10 large,
          value-digits_fuel f (n / 10) (omega (arith, ltb_false→le n 10 large)),
        ))
]

-- The text of a number reads back as the number.
pub value-to_text : (n : ℕ) → value (to_text n) ≡ n
unfolding value to_text
value-to_text n = value-digits_fuel (suc n) n (omega arith)

pub to_text_injective : (m n : ℕ) → to_text m ≡ to_text n → m ≡ n
to_text_injective m n e = sym (value-to_text m) ∙ ap value e ∙ value-to_text n

digits_fuel-All : (f n : ℕ) → All IsDigit (digits_fuel f n)
unfolding digits_fuel
digits_fuel-All zero n = tt
digits_fuel-All (suc f) n = elim (Bool-cases (ltb n 10)) [
  | inl small ↦ rw small ((omega arith, omega (arith, ltb→lt n 10 small)), tt)
  | inr large ↦ rw large (
      All-append IsDigit (digits_fuel f (n / 10)) ((b'0' + n % 10) ∷ [])
        (digits_fuel-All f (n / 10)) ((omega arith, omega arith), tt))
]

pub to_text-All : (n : ℕ) → All IsDigit (to_text n)
unfolding to_text
to_text-All n = digits_fuel-All (suc n) n

length-digits_fuel : (f n k : ℕ) → n < 10 ^ k → 0 < k → length (digits_fuel f n) ≤ k
unfolding digits_fuel
length-digits_fuel zero n k h p = omega arith
length-digits_fuel (suc f) n zero h p = absurd (omega arith)
length-digits_fuel (suc f) n (suc zero) h p = elim (Bool-cases (ltb n 10)) [
  | inl small ↦ rw small (omega arith)
  | inr large ↦ absurd (omega (arith, ltb_false→le n 10 large))
]
length-digits_fuel (suc f) n (suc (suc k)) h p = elim (Bool-cases (ltb n 10)) [
  | inl small ↦ rw small (omega arith)
  | inr large ↦ rw large (
      omega (
        arith,
        length-append (digits_fuel f (n / 10)) ((b'0' + n % 10) ∷ []),
        length-digits_fuel f (n / 10) (suc k) (omega (arith, pow-suc 10 (suc k))) (omega arith),
      ))
]

-- A number below 10 ^ k has at most k digits.
pub length-to_text : (n k : ℕ) → n < 10 ^ k → 0 < k → length (to_text n) ≤ k
unfolding to_text
length-to_text n k h p = length-digits_fuel (suc n) n k h p

-- str(z)
unfoldable pub int_text : ℤ → Text
unfolding to_text
int_text (pos n) = to_text n
int_text (negsuc n) = b'-' ∷ to_text (suc n)

unfoldable pub zeros : ℕ → Text
zeros zero = []
zeros (suc n) = b'0' ∷ zeros n

-- text.zfill(width) of a text without a sign.
unfoldable pub zfill : ℕ → Text → Text
unfolding zeros
zfill width t = zeros (width - length t) ++ t

length-zeros : (n : ℕ) → length (zeros n) ≡ n
unfolding zeros
length-zeros zero = refl
length-zeros (suc n) = ap suc (length-zeros n)

zeros-All : (n : ℕ) → All IsDigit (zeros n)
unfolding zeros
zeros-All zero = tt
zeros-All (suc n) = ((omega arith, omega arith), zeros-All n)

pub length-zfill : (width : ℕ) (t : Text) → length t ≤ width → length (zfill width t) ≡ width
unfolding zfill
length-zfill width t h =
    omega (arith, length-append (zeros (width - length t)) t, length-zeros (width - length t))

pub zfill-All : (width : ℕ) (t : Text) → All IsDigit t → All IsDigit (zfill width t)
unfolding zfill
zfill-All width t h =
    All-append IsDigit (zeros (width - length t)) t (zeros-All (width - length t)) h

value-zeros : (n : ℕ) (t : Text) → value (zeros n ++ t) ≡ value t
unfolding zeros value
value-zeros zero t = refl
value-zeros (suc n) t = value-zeros n t

pub value-zfill : (width : ℕ) (t : Text) → value (zfill width t) ≡ value t
unfolding zfill
value-zfill width t = value-zeros (width - length t) t

digits_fuel-nonempty : (f n : ℕ) → length (digits_fuel (suc f) n) ≢ 0
unfolding digits_fuel
digits_fuel-nonempty f n =
    ground (arith, length-append (digits_fuel f (n / 10)) ((b'0' + n % 10) ∷ []))

pub length-to_text_pos : (n : ℕ) → 0 < length (to_text n)
unfolding to_text
length-to_text_pos n = omega (arith, digits_fuel-nonempty n n)
