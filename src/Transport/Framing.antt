-- ===== src/Transport/Framing.antt =====
-- Length-prefixed envelopes: `read_envelope` and `write_envelope` of
-- desktop/src/linkable_desktop/transport/framing.py.
use linkable.Prelude.{
  ℕ, ◌≤◌, ◌<◌, ◌^◌, ◌≡◌, refl, ◌∙◌, ◌≢◌, true, false, ◌||◌, Option, some, ◌++◌, append_assoc, arith,
  Bytes, length, ltb, lt→ltb, nat_eqb, if◌then◌else◌, ◌⊎◌,
}
use linkable.Prelude.Encoding.{to_bytes, from_bytes, length-to_bytes, from_bytes-to_bytes}
use linkable.Prelude.Exec.{
  Result, ok, err, Exec, eof_error, value_error, struct_error, decode_error, no_fuel, ◌>>=◌, ◌>>◌,
  lift, raise_if, or_raise, bind_result-raises, bind-Terminates, raise_if-Terminates,
  or_raise-Terminates,
}
use linkable.Transport.Stream.{
  Reader, read_exact, read_exact-short, read_exact-append, read_exact-Terminates,
}

-- The protobuf encoding of the messages that a stream carries.
pub record Codec : Type 1 where
  pub Envelope : Type 0
  pub serialize : Envelope → Bytes
  pub parse : Bytes → Option Envelope
  pub parse-serialize : (e : Envelope) → parse (serialize e) ≡ some e

-- struct.pack(">I", n)
unfoldable pub pack_u32 : ℕ → Result Bytes
pack_u32 n = if ltb n (2 ^ 32) then ok (to_bytes 4 n) else err struct_error

-- stream.write(bs), where the state is all that the stream has been given.
abbrev pub emit : Bytes → Exec Bytes (Unit {0})
emit bs out = (ok tt, out ++ bs)

module _ (c : Codec) where
  open c use {Envelope, serialize, parse, parse-serialize}

  unfoldable pub write_envelope : Envelope → Exec Bytes (Unit {0})
  unfolding pack_u32
  write_envelope e = do
    header ← lift (pack_u32 (length (serialize e)))
    emit header
    emit (serialize e)

  -- The bytes of one envelope on the wire.
  abbrev pub frame : Envelope → Bytes
  frame e = to_bytes 4 (length (serialize e)) ++ serialize e

  -- An envelope that a reader with this limit accepts.
  abbrev pub Fits : ℕ → Envelope → Type 0
  Fits max e = (0 < length (serialize e)) × (length (serialize e) ≤ max)

  pub write_envelope-frame :
      (e : Envelope) (out : Bytes)
      → length (serialize e) < 2 ^ 32
      → write_envelope e out ≡ (ok tt, out ++ frame e)
  unfolding write_envelope
  write_envelope-frame e out h =
      rw (lt→ltb (length (serialize e)) (2 ^ 32) h) (rw append_assoc refl)

  -- What `struct.pack` refuses: nothing is written then.
  pub write_envelope-too_long :
      (e : Envelope) (out : Bytes)
      → 2 ^ 32 ≤ length (serialize e)
      → write_envelope e out ≡ (err struct_error, out)
  unfolding write_envelope
  write_envelope-too_long e out h = ground arith

  module _ (r : Reader) where
    open r use {Stream, pending}

    unfoldable pub read_envelope : ℕ → Exec Stream Envelope
    read_envelope max_frame_size = do
      header ← read_exact r 4
      let size = from_bytes header
      raise_if (nat_eqb size 0 || ltb max_frame_size size) value_error
      payload ← read_exact r size
      lift (or_raise decode_error (parse payload))

    -- A stream that begins with the frame of an envelope gives that envelope back and leaves the
    -- rest, however it cuts its chunks, if the limit is below 2 ^ 32 and the encoded envelope has
    -- one byte at least and the limit at most.
    pub read_envelope-frame :
        (max : ℕ) (e : Envelope) (s : Stream) (rest : Bytes)
        → max < 2 ^ 32
        → Fits max e
        → pending s ≡ frame e ++ rest
        → (s' : Stream) × (read_envelope max s ≡ (ok e, s')) × (pending s' ≡ rest)
    unfolding read_envelope
    read_envelope-frame max e s rest m fits p =
        (s₂, rw (e₁, size, accepted, e₂, parse-serialize e), p₂)
      where
        n : ℕ
        n = length (serialize e)

        header :
            (s' : Stream) × (read_exact r 4 s ≡ (ok (to_bytes 4 n), s'))
            × (pending s' ≡ serialize e ++ rest)
        header =
            read_exact-append r 4 s (to_bytes 4 n) (serialize e ++ rest) (length-to_bytes 4 n)
              (p ∙ append_assoc (to_bytes 4 n) (serialize e) rest)

        open header use {«0» as s₁, «1» as e₁, «2» as p₁}

        payload : (s' : Stream) × (read_exact r n s₁ ≡ (ok (serialize e), s')) × (pending s' ≡ rest)
        payload = read_exact-append r n s₁ (serialize e) rest refl p₁

        open payload use {«0» as s₂, «1» as e₂, «2» as p₂}

        size : from_bytes (to_bytes 4 n) ≡ n
        size = from_bytes-to_bytes 4 n (omega arith)

        accepted : (nat_eqb n 0 || ltb max n) ≡ false
        accepted = ground arith

    -- If a stream begins with a size below 2 ^ 32 that is zero or above the limit, the read raises
    -- `ValueError`, and nothing after the four bytes of the size is read.
    pub read_envelope-bad_size :
        (max size : ℕ) (s : Stream) (rest : Bytes)
        → size < 2 ^ 32
        → (size ≡ 0) ⊎ (max < size)
        → pending s ≡ to_bytes 4 size ++ rest
        → (s' : Stream) × (read_envelope max s ≡ (err value_error, s')) × (pending s' ≡ rest)
    unfolding read_envelope
    read_envelope-bad_size max size s rest small bad p =
        let (s₁, e₁, p₁) =
          read_exact-append r 4 s (to_bytes 4 size) rest (length-to_bytes 4 size) p in
        (s₁, rw (e₁, from_bytes-to_bytes 4 size small, refused), p₁)
      where
        refused : (nat_eqb size 0 || ltb max size) ≡ true
        refused = ground arith

    -- A stream that ends within the header raises `EOFError`.
    pub read_envelope-short :
        (max : ℕ) (s : Stream) → length (pending s) < 4 → (read_envelope max s).0 ≡ err eof_error
    unfolding read_envelope
    read_envelope-short max s h =
        bind_result-raises _ (read_exact r 4 s) eof_error (read_exact-short r 4 s h)

    -- For every stream and every limit the read ends: the rounds that its loops are given are
    -- enough.
    pub read_envelope-Terminates : (max : ℕ) (s : Stream) → (read_envelope max s).0 ≢ err no_fuel
    unfolding read_envelope
    read_envelope-Terminates max =
        bind-Terminates (read_exact r 4) _ (read_exact-Terminates r 4) λ header.
          bind-Terminates (raise_if _ value_error) _ (raise_if-Terminates _ value_error (λ e. cc))
            λ _.
              bind-Terminates (read_exact r (from_bytes header)) _ (read_exact-Terminates r _)
                λ payload. or_raise-Terminates decode_error (parse payload) (λ e. cc)
