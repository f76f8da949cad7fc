-- ===== src/Pairing/Code.antt =====
-- pairing/code_generator.py: the verification code of a pairing and the hash that its
-- confirmation signs. HKDF and SHA-256 are parameters.
use native.Mathlib.Nat.{pow-suc}
use linkable.Prelude.{
  suc, zero, lt→ltb, ℕ, ◌≡◌, ◌^◌, ◌<◌, ◌%◌, refl, sym, ap, ◌∙◌, Bytes, Text, ◌++◌, [], ◌∷◌, arith,
  codes, length, All, length-append, append_cancel,
}
use linkable.Prelude.Decimal.{
  to_text, zfill, value, IsDigit, to_text-All, zfill-All, length-to_text, length-zfill,
  value-to_text, value-zfill,
}
use linkable.Prelude.Encoding.{from_bytes, utf8}

-- HKDF with SHA-256 as `hkdf length salt info key`, and hashlib.sha256.
pub record Hashes : Type 0 where
  pub hkdf : ℕ → Bytes → Bytes → Bytes → Bytes
  pub sha256 : Bytes → Bytes

abbrev pub pairing_code_info : Bytes
pairing_code_info = codes "linkable-pair-code-v1"

abbrev pub pair_confirm_prefix : Bytes
pair_confirm_prefix = codes "PAIR_CONFIRM_V1"

pub record PairingChallengeMaterial : Type 0 where
  pub pairing_nonce : Bytes
  pub challenge_nonce : Bytes
  pub initiator_public_key : Bytes
  pub acceptor_public_key : Bytes
  pub initiator_device_id : Text
  pub acceptor_device_id : Text
  pub code_length : ℕ

-- What the hash is taken of.
unfoldable pub transcript :
    (pairing_nonce challenge_nonce : Bytes)
    → (initiator_device_id acceptor_device_id verification_code : Text) → Bytes
transcript pairing_nonce challenge_nonce initiator_device_id acceptor_device_id verification_code =
    pair_confirm_prefix
    ++ (pairing_nonce
        ++ (challenge_nonce
            ++ (utf8 initiator_device_id ++ (utf8 acceptor_device_id ++ utf8 verification_code))))

module _ (h : Hashes) where
  open h use {hkdf, sha256}

  -- The eight bytes that the code is made of.
  unfoldable pub raw :
      (pairing_nonce challenge_nonce initiator_public_key acceptor_public_key : Bytes) → Bytes
  raw pairing_nonce challenge_nonce initiator_public_key acceptor_public_key =
      hkdf 8 (initiator_public_key ++ acceptor_public_key) pairing_code_info
        (pairing_nonce ++ challenge_nonce)

  unfoldable pub derive_pairing_code :
      (pairing_nonce challenge_nonce initiator_public_key acceptor_public_key : Bytes)
      (code_length : ℕ)
      → Text
  unfolding raw
  derive_pairing_code pairing_nonce challenge_nonce initiator_public_key acceptor_public_key
        code_length =
      zfill code_length (
        to_text (
          from_bytes (raw pairing_nonce challenge_nonce initiator_public_key acceptor_public_key)
          % 10 ^ code_length))

  unfoldable pub compute_transcript_hash :
      (pairing_nonce challenge_nonce : Bytes)
      → (initiator_device_id acceptor_device_id verification_code : Text) → Bytes
  unfolding transcript
  compute_transcript_hash pairing_nonce challenge_nonce initiator_device_id acceptor_device_id
        verification_code =
      sha256 (
        transcript pairing_nonce challenge_nonce initiator_device_id acceptor_device_id
          verification_code)

  unfoldable pub pairing_code : PairingChallengeMaterial → Text
  unfolding derive_pairing_code
  pairing_code m =
      derive_pairing_code m.pairing_nonce m.challenge_nonce m.initiator_public_key
        m.acceptor_public_key m.code_length

  unfoldable pub transcript_hash : PairingChallengeMaterial → Bytes
  unfolding compute_transcript_hash pairing_code
  transcript_hash m =
      compute_transcript_hash m.pairing_nonce m.challenge_nonce m.initiator_device_id
        m.acceptor_device_id (pairing_code m)

small_value : (n k : ℕ) → n % 10 ^ k < 10 ^ k
small_value n k = omega (arith, 10_pos k)
  where
    10_pos : (k : ℕ) → 0 < 10 ^ k
    10_pos zero = omega arith
    10_pos (suc k) = omega (arith, pow-suc 10 k, 10_pos k)

module _ (h : Hashes) where
  -- The code has exactly the configured number of characters, all of them digits, and its value is
  -- that of the derived bytes modulo 10 to that number, for every length from 1.
  pub derive_pairing_code_lem :
      (pairing_nonce challenge_nonce initiator_key acceptor_key : Bytes) (code_length : ℕ)
      → 0 < code_length
      → (length (
            derive_pairing_code h pairing_nonce challenge_nonce initiator_key acceptor_key
              code_length)
          ≡ code_length)
        × All IsDigit (
            derive_pairing_code h pairing_nonce challenge_nonce initiator_key acceptor_key
              code_length)
        × (value (
              derive_pairing_code h pairing_nonce challenge_nonce initiator_key acceptor_key
                code_length)
            ≡ from_bytes (raw h pairing_nonce challenge_nonce initiator_key acceptor_key)
              % 10 ^ code_length)
  unfolding derive_pairing_code
  derive_pairing_code_lem p c i a len pos = (
    length-zfill len (to_text code) (length-to_text code len (small_value seed len) pos),
    zfill-All len (to_text code) (to_text-All code),
    value-zfill len (to_text code) ∙ value-to_text code,
  )
    where
      seed : ℕ
      seed = from_bytes (raw h p c i a)

      code : ℕ
      code = seed % 10 ^ len

utf8-IsDigit : (t : Text) → All IsDigit t → utf8 t ≡ t
unfolding utf8
utf8-IsDigit [] d = refl
utf8-IsDigit (c ∷ cs) d = rw (lt→ltb c 128 (omega (arith, d.0.1)), utf8-IsDigit cs d.1) refl

append_cancel_right :
    (xs ys us vs : Bytes) → length ys ≡ length vs → xs ++ ys ≡ us ++ vs → (xs ≡ us) × (ys ≡ vs)
append_cancel_right xs ys us vs h e =
    append_cancel xs ys us vs
      (omega (arith, length-append xs ys, length-append us vs, ap length e, h)) e

-- Two equal transcripts for one acceptor have the same nonces, the same encoding of the
-- initiator's identifier and the same code, if their nonces are equally long and their codes are
-- digits and equally long.
pub transcript_injective :
    (p c p' c' : Bytes) (initiator initiator' acceptor code code' : Text)
    → length p ≡ length p'
    → length c ≡ length c'
    → length code ≡ length code'
    → All IsDigit code
    → All IsDigit code'
    → transcript p c initiator acceptor code ≡ transcript p' c' initiator' acceptor code'
    → (p ≡ p') × (c ≡ c') × (utf8 initiator ≡ utf8 initiator') × (code ≡ code')
unfolding transcript
transcript_injective p c p' c' i i' a code code' hp hc hl d d' e =
    let after_prefix =
      (append_cancel pair_confirm_prefix (p ++ (c ++ rest i code)) pair_confirm_prefix
        (p' ++ (c' ++ rest i' code')) refl e).1 in
    let (same_p, after_p) =
      append_cancel p (c ++ rest i code) p' (c' ++ rest i' code') hp after_prefix in
    let (same_c, after_c) = append_cancel c (rest i code) c' (rest i' code') hc after_p in
    let (same_i, same_rest) =
      append_cancel_right (utf8 i) (utf8 a ++ utf8 code) (utf8 i') (utf8 a ++ utf8 code') tails
        after_c in
    let same_code = (append_cancel (utf8 a) (utf8 code) (utf8 a) (utf8 code') refl same_rest).1 in
    (same_p, same_c, same_i, sym (utf8-IsDigit code d) ∙ same_code ∙ utf8-IsDigit code' d')
  where
    rest : Text → Text → Bytes
    rest i code = utf8 i ++ (utf8 a ++ utf8 code)

    tails : length (utf8 a ++ utf8 code) ≡ length (utf8 a ++ utf8 code')
    tails =
        rw (utf8-IsDigit code d, utf8-IsDigit code' d')
          (omega (arith, length-append (utf8 a) code, length-append (utf8 a) code', hl))
