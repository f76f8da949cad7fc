-- ===== src/Prelude/Exec.antt =====
-- Methods that change an object and may raise. What was changed before a raise stays changed, so
-- the state comes back beside the exception too.
use mathlib.Core.Path.{◌≡◌, refl}
use mathlib.Core.Logic.{◌≢◌, ◌⊎◌, inl, inr}
use mathlib.Core.Bool.{Bool, true, false}
use mathlib.Core.Option.{Option, none, some}

-- The Python exceptions that the modelled code raises or lets through. `no_fuel` is none of them:
-- it says that a loop of the model used up its rounds.
pub data Exception : Type 0 where
  eof_error value_error struct_error overflow_error invalid_tag decode_error : Exception
  file_not_found_error os_error timeout_error key_error no_fuel : Exception

pub data Result {ℓ} (A : Type ℓ) : Type ℓ where
  ok : A → Result A
  err : Exception → Result A

abbrev pub Exec {ℓ} : Type ℓ → Type ℓ → Type ℓ
Exec S A = S → Result A × S

module _ {ℓ} {S A : Type ℓ} where
  abbrev pub pure : A → Exec S A
  pure a s = (ok a, s)

  abbrev pub raise : Exception → Exec S A
  raise x s = (err x, s)

  abbrev pub lift : Result A → Exec S A
  lift r s = (r, s)

module _ {ℓ} {S A B : Type ℓ} where
  abbrev pub bind_result : (A → Exec S B) → Result A × S → Result B × S
  bind_result f (ok a, s) = f a s
  bind_result f (err x, s) = (err x, s)

  infixl 5 ◌>>=◌ ◌>>◌
  abbrev pub ◌>>=◌ : Exec S A → (A → Exec S B) → Exec S B
  ◌>>=◌ m f s = bind_result f (m s)

  abbrev pub ◌>>◌ : Exec S A → Exec S B → Exec S B
  m >> n = m >>= λ _. n

-- raise x if the test holds
abbrev pub raise_if : {S : Type 0} → Bool → Exception → Exec S (Unit {0})
raise_if true x s = (err x, s)
raise_if false x s = (ok tt, s)

-- A fallible call into a library, with the exception that its failure raises.
abbrev pub or_raise : {A : Type 0} → Exception → Option A → Result A
or_raise x none = err x
or_raise x (some a) = ok a

-- Actions that never use up a loop's rounds.
abbrev pub Terminates : {S A : Type 0} → Exec S A → Type 0
Terminates {S} m = (s : S) → (m s).0 ≢ err no_fuel

module _ {S A B : Type 0} where
  bind_result-Terminates :
      (f : A → Exec S B) (x : Result A × S)
      → x.0 ≢ err no_fuel
      → ((a : A) → Terminates (f a))
      → (bind_result f x).0 ≢ err no_fuel
  bind_result-Terminates f (ok a, s) h k = k a s
  bind_result-Terminates f (err x, s) h k = λ e. h (cc)

  pub bind-Terminates :
      (m : Exec S A) (f : A → Exec S B)
      → Terminates m
      → ((a : A) → Terminates (f a))
      → Terminates (m >>= f)
  bind-Terminates m f hm hf s = bind_result-Terminates f (m s) (hm s) hf

pub raise_if-Terminates :
    {S : Type 0} (b : Bool) (x : Exception) → x ≢ no_fuel → Terminates (raise_if {S = S} b x)
raise_if-Terminates true x h s e = h (cc)
raise_if-Terminates false x h s e = cc

pub or_raise-Terminates :
    {S A : Type 0} (x : Exception) (o : Option A)
    → x ≢ no_fuel
    → Terminates {S = S} (lift (or_raise x o))
or_raise-Terminates x none h s e = h (cc)
or_raise-Terminates x (some a) h s e = cc

-- What raises, raises through the steps after it.
pub bind_result-raises :
    {S A B : Type 0} (f : A → Exec S B) (x : Result A × S) (e : Exception)
    → x.0 ≡ err e
    → (bind_result f x).0 ≡ err e
bind_result-raises f (ok a, s) e h = cc
bind_result-raises f (err y, s) e h = cc

-- What an action keeps, whether it returns or raises.
abbrev pub Keeps : {S A : Type 0} → (S → Type 0) → Exec S A → Type 0
Keeps {S} P m = (s : S) → P s → P (m s).1

module _ {S A B : Type 0} where
  bind_result-Keeps :
      (P : S → Type 0) (f : A → Exec S B) (x : Result A × S)
      → P x.1
      → ((a : A) → Keeps P (f a))
      → P (bind_result f x).1
  bind_result-Keeps P f (ok a, s) h k = k a s h
  bind_result-Keeps P f (err x, s) h k = h

  pub bind-Keeps :
      (P : S → Type 0) (m : Exec S A) (f : A → Exec S B)
      → Keeps P m
      → ((a : A) → Keeps P (f a))
      → Keeps P (m >>= f)
  bind-Keeps P m f hm hf s h = bind_result-Keeps P f (m s) (hm s h) hf

pub raise_if-Keeps :
    {S : Type 0} (P : S → Type 0) (b : Bool) (x : Exception) → Keeps P (raise_if {S = S} b x)
raise_if-Keeps P true x s h = h
raise_if-Keeps P false x s h = h

pub Result-cases :
    {A : Type 0} (r : Result A) → ((x : Exception) × (r ≡ err x)) ⊎ ((a : A) × (r ≡ ok a))
Result-cases (ok a) = inr (a, refl)
Result-cases (err x) = inl (x, refl)

pub ok_injective : {A : Type 0} {a b : A} → Result.ok a ≡ ok b → a ≡ b
ok_injective h = cc

-- What holds of the world after the first part and is carried on by the rest.
pub bind_result-Post :
    {S A B : Type 0} (I P : S → Type 0) (f : A → Exec S B) (x : Result A × S)
    → I x.1
    → ((v : S) → I v → P v)
    → ((a : A) (v : S) → I v → P (f a v).1)
    → P (bind_result f x).1
bind_result-Post I P f (ok a, v) h g k = k a v h
bind_result-Post I P f (err e, v) h g k = g v h
