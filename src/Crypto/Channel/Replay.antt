-- ===== src/Crypto/Channel/Replay.antt =====
-- Counters: no frame is accepted twice, and writes that return use different nonces.
use linkable.Prelude.{
  ℕ, zero, suc, ◌+◌, ◌^◌, ◌≤◌, ◌<◌, ◌≡◌, ◌≢◌, refl, sym, ap, ◌∙◌, true, false, ◌||◌, List, [], ◌∷◌,
  ◌++◌, arith, Bytes, length, take, drop, ltb, leb, Bool-cases, inl, inr,
}
use linkable.Prelude.Encoding.{
  to_bytes, from_bytes, length-to_bytes, from_bytes-to_bytes, to_bytes_injective,
}
use linkable.Prelude.Exec.{
  ok, err, Exec, ◌>>=◌, ◌>>◌, lift, raise_if, or_raise, value_error, invalid_tag, decode_error,
  Keeps, bind-Keeps, raise_if-Keeps,
}
use linkable.Transport.Stream.{Reader, read_exact, read_exact-append}
use linkable.Transport.Framing.{Codec}
use linkable.Crypto.Channel.{
  Aead, Channel, nonce, is_seen, with_stream, check_and_mark, write_envelope, read_envelope,
  write_all, read_many,
}

nonce-eq-ok :
    (n : ℕ) (x : Bytes) → nonce n ≡ ok x → (n < 2 ^ 64) × (x ≡ 0 ∷ 0 ∷ 0 ∷ 0 ∷ to_bytes 8 n)
unfolding nonce
nonce-eq-ok n x e = ground arith

-- Two counters with one nonce are equal.
pub nonce_injective : (m n : ℕ) (x : Bytes) → nonce m ≡ ok x → nonce n ≡ ok x → m ≡ n
nonce_injective m n x e f =
    let (hm, em) = nonce-eq-ok m x e in
    let (hn, en) = nonce-eq-ok n x f in to_bytes_injective 8 m n hm hn (cc)

is_seen_head : (k : ℕ) (seen : List ℕ) → is_seen k (k ∷ seen) ≡ true
unfolding is_seen
is_seen_head k seen = ground arith

module _ {r : Reader} where
  abbrev IsMarked : ℕ → Channel r → Type 0
  IsMarked k ch = is_seen k ch.seen ≡ true

  check_and_mark-IsMarked : (k counter : ℕ) → Keeps (IsMarked k) (check_and_mark counter)
  unfolding check_and_mark is_seen
  check_and_mark-IsMarked k counter ch h = ground arith

module _ (c : Codec) (a : Aead) {r : Reader} where
  open c use {Envelope, serialize, parse}
  open a use {encrypt, decrypt}

  -- What `read_envelope` does with a frame once its counter is marked.
  abbrev opened : Bytes → Bytes → Exec (Channel r) Envelope
  opened key frame = do
    n ← lift (nonce (from_bytes (take 8 frame)))
    plaintext ← lift (or_raise invalid_tag (decrypt key n (drop 8 frame)))
    lift (or_raise decode_error (parse plaintext))

  opened-IsMarked : (k : ℕ) (key frame : Bytes) → Keeps (IsMarked {r = r} k) (opened key frame)
  opened-IsMarked k key frame =
      bind-Keeps (IsMarked k) (lift (nonce (from_bytes (take 8 frame)))) _ (λ s h. h)
        λ n.
          bind-Keeps (IsMarked k) (lift (or_raise invalid_tag (decrypt key n (drop 8 frame)))) _
            (λ s h. h) λ plaintext s h. h

  read_envelope-IsMarked : (k : ℕ) → Keeps (IsMarked {r = r} k) (read_envelope c a)
  unfolding read_envelope
  read_envelope-IsMarked k ch =
      bind-Keeps (IsMarked k) (with_stream (read_exact r 4)) _ (λ s h. h)
        (λ header.
          bind-Keeps (IsMarked k) (raise_if _ value_error) _
            (raise_if-Keeps (IsMarked k) _ value_error)
            λ _.
              bind-Keeps (IsMarked k) (with_stream (read_exact r (from_bytes header))) _ (λ s h. h)
                λ frame.
                  bind-Keeps (IsMarked k) (check_and_mark (from_bytes (take 8 frame))) _
                    (check_and_mark-IsMarked k (from_bytes (take 8 frame)))
                    λ _. opened-IsMarked k ch.receive_key frame)
        ch

  read_many-IsMarked : (k n : ℕ) → Keeps (IsMarked {r = r} k) (read_many c a n)
  unfolding read_many
  read_many-IsMarked k zero ch h = h
  read_many-IsMarked k (suc n) ch h =
      bind-Keeps (IsMarked k) (read_envelope c a) _ (read_envelope-IsMarked k)
        (λ e. bind-Keeps (IsMarked k) (read_many c a n) _ (read_many-IsMarked k n) (λ es s m. m)) ch
        h

  marking :
      (k : ℕ) (m : Exec (Channel r) Envelope) (ch : Channel r) (e : Envelope)
      → Keeps (IsMarked k) m
      → ((check_and_mark k >> m) ch).0 ≡ ok e
      → IsMarked k (((check_and_mark k >> m) ch).1)
  unfolding check_and_mark
  marking k m ch e keeps h = elim (Bool-cases (is_seen k ch.seen)) [
    | inl old ↦ absurd (cc (rw (old, check_and_mark) at h))
    | inr new ↦
        rw (new, check_and_mark) (keeps (record ch { seen = k ∷ ch.seen }) (is_seen_head k ch.seen))
  ]

  -- A frame on the wire, whose size the channel accepts.
  abbrev pub Delivers : Channel r → Bytes → Bytes → Type 0
  Delivers ch frame rest =
      (r.pending ch.stream ≡ to_bytes 4 (length frame) ++ (frame ++ rest))
      × (8 < length frame)
      × (length frame ≤ ch.max_frame_size)
      × (length frame < 2 ^ 32)

  read_envelope-Delivers :
      (ch : Channel r) (frame rest : Bytes)
      → Delivers ch frame rest
      → (s' : r.Stream) × (read_envelope c a ch
          ≡ (check_and_mark (from_bytes (take 8 frame)) >> opened ch.receive_key frame)
              (record ch { stream = s' }))
  unfolding read_envelope
  read_envelope-Delivers ch frame rest (p, large, small, word) =
      let n = length frame in
      let (s₁, e₁, p₁) =
        read_exact-append r 4 ch.stream (to_bytes 4 n) (frame ++ rest) (length-to_bytes 4 n) p in
      let (s₂, e₂, p₂) = read_exact-append r n s₁ frame rest refl p₁ in
      let accepted : (leb n 8 || ltb ch.max_frame_size n) ≡ false = ground arith in
      (s₂, rw (e₁, from_bytes-to_bytes 4 n word, accepted, e₂) refl)

  refused :
      (k : ℕ) (m : Exec (Channel r) Envelope) (ch : Channel r)
      → IsMarked k ch
      → ((check_and_mark k >> m) ch).0 ≡ err value_error
  unfolding check_and_mark
  refused k m ch h = rw (h, check_and_mark) refl

  -- After a frame of an accepted size was read without an exception, any frame of an accepted size
  -- with the same first 8 bytes, its counter, is refused with `ValueError`, however many envelopes
  -- are read between.
  pub replay-refused :
      (ch : Channel r) (frame rest : Bytes) (n : ℕ) (again rest' : Bytes) (e : Envelope)
      → Delivers ch frame rest
      → (read_envelope c a ch).0 ≡ ok e
      → Delivers (read_many c a n (read_envelope c a ch).1).1 again rest'
      → take 8 again ≡ take 8 frame
      → (read_envelope c a (read_many c a n (read_envelope c a ch).1).1).0 ≡ err value_error
  replay-refused ch frame rest n again rest' e first accepted second same =
      let k = from_bytes (take 8 frame) in
      let (s₁, e₁) = read_envelope-Delivers ch frame rest first in
      let (s₂, e₂) =
        read_envelope-Delivers (read_many c a n (read_envelope c a ch).1).1 again rest' second in
      let marked : IsMarked k (read_envelope c a ch).1 = rw e₁ (
        marking k (opened ch.receive_key frame) (record ch { stream = s₁ }) e
          (opened-IsMarked k ch.receive_key frame) (ap (λ x. x.0) (sym e₁) ∙ accepted)) in
      let still : IsMarked k (read_many c a n (read_envelope c a ch).1).1 =
        read_many-IsMarked k n (read_envelope c a ch).1 marked in
      ap (λ x. x.0) e₂ ∙ refused (from_bytes (take 8 again)) _ _ (rw same still)

  -- The counter of a channel never goes back.
  write_envelope-counter :
      (n : ℕ) (e : Envelope)
      → Keeps (λ (ch : Channel r). n ≤ ch.send_counter) (write_envelope c a e)
  unfolding write_envelope
  write_envelope-counter n e ch h = ground arith

  write_all-counter :
      (n : ℕ) (es : List Envelope)
      → Keeps (λ (ch : Channel r). n ≤ ch.send_counter) (write_all c a es)
  unfolding write_all
  write_all-counter n [] = λ ch h. h
  write_all-counter n (e ∷ es) =
      bind-Keeps (λ (ch : Channel r). n ≤ ch.send_counter) (write_envelope c a e) _
        (write_envelope-counter n e) (λ _. write_all-counter n es)

  write_envelope-bump :
      (ch : Channel r) (e : Envelope)
      → (write_envelope c a e ch).0 ≡ ok tt
      → (write_envelope c a e ch).1.send_counter ≡ ch.send_counter + 1
  unfolding write_envelope
  write_envelope-bump ch e h = ground arith

  -- The nonce of a write that returns is not the nonce that the channel comes to after it,
  -- whatever envelopes are written between and whichever of those writes raise.
  pub nonce_never_reused :
      (ch : Channel r) (e : Envelope) (es : List Envelope) (x y : Bytes)
      → (write_envelope c a e ch).0 ≡ ok tt
      → nonce ch.send_counter ≡ ok x
      → nonce (write_all c a es (write_envelope c a e ch).1).1.send_counter ≡ ok y
      → x ≢ y
  nonce_never_reused ch e es x y sent hx hy same = absurd (
      omega (
        arith,
        nonce_injective ch.send_counter _ x hx (hy ∙ ap ok (sym same)),
        write_envelope-bump ch e sent,
        write_all-counter (ch.send_counter + 1) es (write_envelope c a e ch).1
            (omega (arith, write_envelope-bump ch e sent)),
      ))
