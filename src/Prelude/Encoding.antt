-- ===== src/Prelude/Encoding.antt =====
-- `struct.pack` and `int.to_bytes` in big-endian order, and UTF-8.
use native.Mathlib.Nat.{pow-suc}
use Prim.Native.Nat.{ℕ, zero, suc, ◌+◌, ◌*◌, ◌/◌, ◌%◌, ◌^◌, ◌<◌}
use mathlib.Core.Path.{◌≡◌, refl, ap, sym, ◌∙◌}
use mathlib.Core.List.{[], ◌∷◌, ◌++◌}
use native.Mathlib.Omega.{arith}
use linkable.Prelude.Tests.{ltb, if◌then◌else◌}
use linkable.Prelude.Lists.{length, length-append}
use linkable.Prelude.Equality.{Bytes, Text}

-- The k bytes of n, most significant first.
unfoldable pub to_bytes : ℕ → ℕ → Bytes
to_bytes zero n = []
to_bytes (suc k) n = to_bytes k (n / 256) ++ (n % 256) ∷ []

-- int.from_bytes(bs, "big"), from the value of the bytes before.
unfoldable pub from_bytes_acc : ℕ → Bytes → ℕ
from_bytes_acc acc [] = acc
from_bytes_acc acc (b ∷ bs) = from_bytes_acc (acc * 256 + b) bs

unfoldable pub from_bytes : Bytes → ℕ
unfolding from_bytes_acc
from_bytes bs = from_bytes_acc 0 bs

pub length-to_bytes : (k n : ℕ) → length (to_bytes k n) ≡ k
unfolding to_bytes
length-to_bytes zero n = refl
length-to_bytes (suc k) n =
    omega
      (arith, length-append (to_bytes k (n / 256)) ((n % 256) ∷ []), length-to_bytes k (n / 256))

from_bytes_acc-append :
    (acc : ℕ) (xs : Bytes) (b : ℕ)
    → from_bytes_acc acc (xs ++ b ∷ []) ≡ from_bytes_acc acc xs * 256 + b
unfolding from_bytes_acc
from_bytes_acc-append acc [] b = refl
from_bytes_acc-append acc (x ∷ xs) b = from_bytes_acc-append (acc * 256 + x) xs b

pub from_bytes-to_bytes : (k n : ℕ) → n < 256 ^ k → from_bytes (to_bytes k n) ≡ n
unfolding to_bytes from_bytes
from_bytes-to_bytes zero n h = omega arith
from_bytes-to_bytes (suc k) n h =
    rw (from_bytes_acc-append 0 (to_bytes k (n / 256)) (n % 256))
      (omega (arith, from_bytes-to_bytes k (n / 256) small))
  where
    small : n / 256 < 256 ^ k
    small = omega (arith, pow-suc 256 k)

pub to_bytes_injective :
    (k m n : ℕ) → m < 256 ^ k → n < 256 ^ k → to_bytes k m ≡ to_bytes k n → m ≡ n
to_bytes_injective k m n hm hn e =
    sym (from_bytes-to_bytes k m hm) ∙ ap from_bytes e ∙ from_bytes-to_bytes k n hn

-- The UTF-8 bytes of one code point.
utf8_char : ℕ → Bytes
utf8_char c =
    if ltb c 0x80
    then c ∷ []
    else if ltb c 0x800
    then (0xC0 + c / 64) ∷ (0x80 + c % 64) ∷ []
    else if ltb c 0x10000
    then (0xE0 + c / 4096) ∷ (0x80 + c / 64 % 64) ∷ (0x80 + c % 64) ∷ []
    else (0xF0 + c / 262144) ∷ (0x80 + c / 4096 % 64) ∷ (0x80 + c / 64 % 64) ∷ (0x80 + c % 64) ∷ []

-- text.encode("utf-8")
unfoldable pub utf8 : Text → Bytes
unfolding utf8_char
utf8 [] = []
utf8 (c ∷ cs) = utf8_char c ++ utf8 cs
