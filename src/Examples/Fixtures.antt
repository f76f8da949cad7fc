-- ===== src/Examples/Fixtures.antt =====
-- Stand-ins for the libraries, which compute.
use Prim.Native.Nat.{min}
use linkable.Prelude.{
  Option, none, Text, ℕ, ◌<◌, ◌-◌, ◌≡◌, refl, sym, ap, Bool, some, [], ◌∷◌, ◌++◌, Bytes, length,
  take, drop, arith, take-append-drop, length-take, length-append, take-append_exact, leb, nat_eqb,
  ◌&&◌, ◌||◌, append-nil,
}
use linkable.Transport.Stream.{Reader}
use linkable.Transport.Framing.{Codec}
use linkable.Crypto.Channel.{Aead}
use linkable.Transfer.Names.{Platform}
use linkable.Trust.{Base64}
use linkable.Prelude.Decimal.{value}
use linkable.Pairing.Code.{Hashes}

pub drip_progress : (n : ℕ) (s : Bytes) → 0 < n → take (min n 2) s ≡ [] → s ≡ []
drip_progress n [] h e = refl
drip_progress n (x ∷ s) h e = absurd (omega (arith, length-take (min n 2) (x ∷ s), ap length e))

-- A stream that delivers at most two bytes at a time.
abbrev pub drip : Reader
drip = record {
  Stream = Bytes;
  read = λ n s. (take (min n 2) s, drop (min n 2) s);
  pending = λ s. s;
  read_splits = λ n s. sym (take-append-drop (min n 2) s);
  read_bounded = λ n s. omega (arith, length-take (min n 2) s);
  read_progress = drip_progress;
}

-- Envelopes that are bytes.
abbrev pub plain : Codec
plain = record {
  Envelope = Bytes;
  serialize = λ e. e;
  parse = λ b. some b;
  parse-serialize = λ e. refl;
}

abbrev pub tag : Bytes
tag = 9 ∷ 9 ∷ 9 ∷ 9 ∷ 9 ∷ 9 ∷ 9 ∷ 9 ∷ 9 ∷ 9 ∷ 9 ∷ 9 ∷ 9 ∷ 9 ∷ 9 ∷ 9 ∷ []

pub tag_cut : (t : Bytes) → take (length (t ++ tag) - 16) (t ++ tag) ≡ t
tag_cut t = take-append_exact (length (t ++ tag) - 16) t tag (omega (arith, length-append t tag))

-- A cipher that hides nothing and appends a constant tag.
abbrev pub tagging : Aead
tagging = record {
  encrypt = λ key nonce plaintext. plaintext ++ tag;
  decrypt = λ key nonce ciphertext. some (take (length ciphertext - 16) ciphertext);
  decrypt-encrypt = λ key nonce plaintext i. some (tag_cut plaintext i);
  length-encrypt = λ key nonce plaintext. length-append plaintext tag;
}

abbrev is_ascii_alnum : ℕ → Bool
is_ascii_alnum c =
    (leb b'0' c && leb c b'9') || (leb b'A' c && leb c b'Z') || (leb b'a' c && leb c b'z')

-- Names of ASCII letters, without suffixes.
abbrev pub ascii : Platform
ascii = record {
  is_alnum = is_ascii_alnum;
  is_space = λ c. nat_eqb c b' ';
  lower = λ t. t;
  stem = λ t. t;
  suffix = λ t. [];
  slash_not_alnum = refl;
  stem-suffix = append-nil;
}

abbrev pub raw64 : Base64
raw64 = record { b64encode = λ b. b; b64decode = λ t. t; b64decode-b64encode = λ b. refl }

-- A key derivation that is constant, and a hash that is the identity.
abbrev pub constant : Hashes
constant = record {
  hkdf = λ n salt info key. 0 ∷ 0 ∷ 0 ∷ 0 ∷ 0 ∷ 1 ∷ 226 ∷ 64 ∷ [];
  sha256 = λ b. b;
}

-- int of a text of one digit.
abbrev pub digit : Text → Option ℕ
digit (c ∷ []) = some (value (c ∷ []))
digit _ = none
