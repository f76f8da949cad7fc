-- ===== src/Crypto/Channel.antt =====
-- The encrypted envelope channel: `ReplayGuard` and `EncryptedEnvelopeChannel` of
-- desktop/src/linkable_desktop/crypto/session_cipher.py.
-- The write lock is not modelled: a write is one step. The stream's `write` and `flush` return; that
-- a failed one leaves the counter as it was is not modelled.
use linkable.Prelude.{
  ℕ, zero, suc, ◌+◌, ◌^◌, ◌≡◌, Bool, true, false, ◌||◌, Option, List, [], ◌∷◌, ◌++◌, Bytes, length,
  take, drop, ltb, leb, nat_eqb, if◌then◌else◌, ◌==◌,
}
use linkable.Prelude.Encoding.{to_bytes, from_bytes}
use linkable.Prelude.Exec.{
  Result, ok, err, Exec, value_error, overflow_error, invalid_tag, decode_error, ◌>>=◌, ◌>>◌, lift,
  raise_if, or_raise,
}
use linkable.Transport.Stream.{Reader, read_exact}
use linkable.Transport.Framing.{Codec, pack_u32}
pub mod RoundTrip
pub mod Replay

-- AES-GCM with no associated data. The ciphertext ends in a tag of 16 bytes.
pub record Aead : Type 0 where
  pub encrypt : (key nonce plaintext : Bytes) → Bytes
  pub decrypt : (key nonce ciphertext : Bytes) → Option Bytes
  pub decrypt-encrypt :
      (key nonce plaintext : Bytes)
      → decrypt key nonce (encrypt key nonce plaintext) ≡ Option.some plaintext
  pub length-encrypt :
      (key nonce plaintext : Bytes) → length (encrypt key nonce plaintext) ≡ length plaintext + 16

-- A channel over a stream that is read, and the bytes written to it so far.
pub record Channel (r : Reader) : Type 0 where
  pub stream : r.Stream
  pub written : Bytes
  pub send_key : Bytes
  pub receive_key : Bytes
  pub max_frame_size : ℕ
  pub send_counter : ℕ
  pub seen : List ℕ

-- counter.to_bytes(8, "big")
counter_bytes : ℕ → Result Bytes
counter_bytes counter = if ltb counter (2 ^ 64) then ok (to_bytes 8 counter) else err overflow_error

unfoldable pub nonce : ℕ → Result Bytes
nonce counter =
    if ltb counter (2 ^ 64) then ok (0 ∷ 0 ∷ 0 ∷ 0 ∷ to_bytes 8 counter) else err overflow_error

unfoldable pub is_seen : ℕ → List ℕ → Bool
is_seen counter [] = false
is_seen counter (k ∷ ks) = nat_eqb counter k || is_seen counter ks

module _ {r : Reader} where
  abbrev pub with_stream : {A : Type 0} → Exec r.Stream A → Exec (Channel r) A
  with_stream m ch = let (res, s) = m ch.stream in (res, record ch { stream = s })

  abbrev pub get_channel : Exec (Channel r) (Channel r)
  get_channel ch = (ok ch, ch)

  -- stream.write(bs)
  abbrev pub emit : Bytes → Exec (Channel r) (Unit {0})
  emit bs ch = (ok tt, record ch { written = ch.written ++ bs })

  bump_counter : Exec (Channel r) (Unit {0})
  bump_counter ch = (ok tt, record ch { send_counter = ch.send_counter + 1 })

  -- Marks the counter before the frame is decrypted.
  unfoldable pub check_and_mark : ℕ → Exec (Channel r) (Unit {0})
  check_and_mark counter ch =
      if is_seen counter ch.seen
      then (err value_error, ch)
      else (ok tt, record ch { seen = counter ∷ ch.seen })

module _ (c : Codec) (a : Aead) {r : Reader} where
  open c use {Envelope, serialize, parse}
  open a use {encrypt, decrypt}

  unfoldable pub write_envelope : Envelope → Exec (Channel r) (Unit {0})
  unfolding nonce counter_bytes pack_u32 bump_counter
  write_envelope e = do
    ch ← get_channel
    n ← lift (nonce ch.send_counter)
    ciphertext ← lift (ok (encrypt ch.send_key n (serialize e)))
    prefix ← lift (counter_bytes ch.send_counter)
    header ← lift (pack_u32 (length (prefix ++ ciphertext)))
    emit header
    emit (prefix ++ ciphertext)
    bump_counter

  unfoldable pub read_envelope : Exec (Channel r) Envelope
  unfolding nonce
  read_envelope = do
    ch ← get_channel
    header ← with_stream (read_exact r 4)
    let size = from_bytes header
    raise_if (leb size 8 || ltb ch.max_frame_size size) value_error
    frame ← with_stream (read_exact r size)
    let counter = from_bytes (take 8 frame)
    check_and_mark counter
    n ← lift (nonce counter)
    plaintext ← lift (or_raise invalid_tag (decrypt ch.receive_key n (drop 8 frame)))
    lift (or_raise decode_error (parse plaintext))

  -- One call after another; the first exception ends the run.
  unfoldable pub write_all : List Envelope → Exec (Channel r) (Unit {0})
  write_all [] ch = (ok tt, ch)
  write_all (e ∷ es) ch = (write_envelope e >> write_all es) ch

  unfoldable pub read_many : ℕ → Exec (Channel r) (List Envelope)
  read_many zero ch = (ok [], ch)
  read_many (suc n) ch = (do e ← read_envelope; es ← read_many n; lift (ok (e ∷ es))) ch
