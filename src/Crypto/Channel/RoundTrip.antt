-- ===== src/Crypto/Channel/RoundTrip.antt =====
-- What one end of an encrypted channel writes, the other end reads.
use linkable.Prelude.{
  ℕ, ◌+◌, ◌^◌, ◌≤◌, ◌<◌, ◌≡◌, refl, sym, ap, ◌∙◌, false, ◌||◌, List, [], ◌∷◌, ◌++◌, append_assoc,
  append-nil, arith, Bytes, All, All-map, length, take, drop, length-append, take-append_exact,
  drop-append_exact, ltb, leb, lt→ltb,
}
use linkable.Prelude.Encoding.{to_bytes, from_bytes, length-to_bytes, from_bytes-to_bytes}
use linkable.Prelude.Exec.{ok}
use linkable.Transport.Stream.{Reader, read_exact, read_exact-append}
use linkable.Transport.Framing.{Codec}
use linkable.Crypto.Channel.{
  Aead, Channel, is_seen, check_and_mark, write_envelope, read_envelope, write_all, read_many,
}

-- No counter from n on is marked.
abbrev pub Unseen : ℕ → List ℕ → Type 0
Unseen n seen = All (λ k. k < n) seen

is_seen-Unseen : (n : ℕ) (seen : List ℕ) → Unseen n seen → is_seen n seen ≡ false
unfolding is_seen
is_seen-Unseen n [] h = refl
is_seen-Unseen n (k ∷ ks) h = ground (arith, is_seen-Unseen n ks h.1)

Unseen-suc : (n : ℕ) (seen : List ℕ) → Unseen n seen → Unseen (n + 1) seen
Unseen-suc n [] h = tt
Unseen-suc n (k ∷ ks) h = (omega arith, Unseen-suc n ks h.1)

module _ (c : Codec) (a : Aead) where
  open c use {Envelope, serialize, parse, parse-serialize}
  open a use {encrypt, decrypt, decrypt-encrypt, length-encrypt}

  abbrev pub nonce_bytes : ℕ → Bytes
  nonce_bytes n = 0 ∷ 0 ∷ 0 ∷ 0 ∷ to_bytes 8 n

  -- The frame of an envelope under a key and a counter.
  abbrev pub sealed : Bytes → ℕ → Envelope → Bytes
  sealed key n e = to_bytes 8 n ++ encrypt key (nonce_bytes n) (serialize e)

  abbrev pub wire : Bytes → ℕ → Envelope → Bytes
  wire key n e = to_bytes 4 (length (sealed key n e)) ++ sealed key n e

  pub length-sealed :
      (key : Bytes) (n : ℕ) (e : Envelope) → length (sealed key n e) ≡ 24 + length (serialize e)
  length-sealed key n e = omega (
    arith,
    length-append (to_bytes 8 n) (encrypt key (nonce_bytes n) (serialize e)),
    length-to_bytes 8 n,
    length-encrypt key (nonce_bytes n) (serialize e),
  )

  -- An envelope whose frame is within the reader's limit.
  abbrev pub Fits : ℕ → Envelope → Type 0
  Fits max e = 24 + length (serialize e) ≤ max

  -- The bytes of envelopes under consecutive counters.
  wires : Bytes → ℕ → List Envelope → Bytes
  wires key n [] = []
  wires key n (e ∷ es) = wire key n e ++ wires key (n + 1) es

  module _ {r : Reader} where
    open r use {Stream, pending}

    pub write_envelope-wire :
        (ch : Channel r) (e : Envelope)
        → ch.send_counter < 2 ^ 64
        → 24 + length (serialize e) < 2 ^ 32
        → write_envelope c a e ch ≡ (
          ok tt,
          record ch {
            written = ch.written ++ wire ch.send_key ch.send_counter e;
            send_counter = ch.send_counter + 1;
          },
        )
    unfolding write_envelope
    write_envelope-wire ch e hn hl = rw (
      lt→ltb ch.send_counter (2 ^ 64) hn,
      lt→ltb (length (sealed ch.send_key ch.send_counter e)) (2 ^ 32)
          (omega (arith, length-sealed ch.send_key ch.send_counter e)),
      append_assoc,
    )

    pub read_envelope-wire :
        (ch : Channel r) (e : Envelope) (n : ℕ) (rest : Bytes)
        → ch.max_frame_size < 2 ^ 32
        → Fits ch.max_frame_size e
        → n < 2 ^ 64
        → Unseen n ch.seen
        → pending ch.stream ≡ wire ch.receive_key n e ++ rest
        → (s' : Stream) × (read_envelope c a ch
            ≡ (ok e, record ch { stream = s'; seen = n ∷ ch.seen }))
          × (pending s' ≡ rest)
    unfolding read_envelope check_and_mark
    read_envelope-wire ch e n rest hm hf hn hu p = (
      s₂,
      rw (
        e₁,
        size,
        accepted,
        e₂,
        counter,
        is_seen-Unseen n ch.seen hu,
        lt→ltb n (2 ^ 64) hn,
        tail,
        decrypt-encrypt key (nonce_bytes n) (serialize e),
        parse-serialize e,
      ),
      p₂,
    )
      where
        key : Bytes
        key = ch.receive_key

        ciphertext : Bytes
        ciphertext = encrypt key (nonce_bytes n) (serialize e)

        len : ℕ
        len = length (sealed key n e)

        header :
            (s' : Stream) × (read_exact r 4 ch.stream ≡ (ok (to_bytes 4 len), s'))
            × (pending s' ≡ sealed key n e ++ rest)
        header =
            read_exact-append r 4 ch.stream (to_bytes 4 len) (sealed key n e ++ rest)
              (length-to_bytes 4 len) (p ∙ append_assoc (to_bytes 4 len) (sealed key n e) rest)

        open header use {«0» as s₁, «1» as e₁, «2» as p₁}

        frame :
            (s' : Stream) × (read_exact r len s₁ ≡ (ok (sealed key n e), s')) × (pending s' ≡ rest)
        frame = read_exact-append r len s₁ (sealed key n e) rest refl p₁

        open frame use {«0» as s₂, «1» as e₂, «2» as p₂}

        size : from_bytes (to_bytes 4 len) ≡ len
        size = from_bytes-to_bytes 4 len (omega (arith, length-sealed key n e))

        accepted : (leb len 8 || ltb ch.max_frame_size len) ≡ false
        accepted = ground (arith, length-sealed key n e)

        counter : from_bytes (take 8 (sealed key n e)) ≡ n
        counter =
            ap from_bytes (take-append_exact 8 (to_bytes 8 n) ciphertext (length-to_bytes 8 n))
            ∙ from_bytes-to_bytes 8 n hn

        tail : drop 8 (sealed key n e) ≡ ciphertext
        tail = drop-append_exact 8 (to_bytes 8 n) ciphertext (length-to_bytes 8 n)

    write_all-wires :
        (ch : Channel r) (es : List Envelope)
        → ch.send_counter + length es < 2 ^ 64
        → All (λ e. 24 + length (serialize e) < 2 ^ 32) es
        → ((write_all c a es ch).0 ≡ ok tt)
          × ((write_all c a es ch).1.written ≡ ch.written ++ wires ch.send_key ch.send_counter es)
    unfolding write_all wires
    write_all-wires ch [] hn hl = (refl, sym (append-nil ch.written))
    write_all-wires ch (e ∷ es) hn hl =
        let next : Channel r = record ch {
          written = ch.written ++ wire ch.send_key ch.send_counter e;
          send_counter = ch.send_counter + 1;
        } in
        let (returns, bytes) = write_all-wires next es (omega arith) hl.1 in
        rw (write_envelope-wire ch e (omega arith) hl.0)
          (returns, bytes ∙ append_assoc ch.written _ _)

    read_many-wires :
        (ch : Channel r) (es : List Envelope) (n : ℕ) (rest : Bytes)
        → ch.max_frame_size < 2 ^ 32
        → All (Fits ch.max_frame_size) es
        → n + length es < 2 ^ 64
        → Unseen n ch.seen
        → pending ch.stream ≡ wires ch.receive_key n es ++ rest
        → (ch' : Channel r) × (read_many c a (length es) ch ≡ (ok es, ch'))
          × (pending ch'.stream ≡ rest)
    unfolding read_many wires
    read_many-wires ch [] n rest hm hf hn hu p = (ch, refl, p)
    read_many-wires ch (e ∷ es) n rest hm hf hn hu p =
        let (s', q, p') =
          read_envelope-wire ch e n (wires ch.receive_key (n + 1) es ++ rest) hm hf.0 (omega arith)
            hu
            (p ∙ append_assoc (wire ch.receive_key n e) (wires ch.receive_key (n + 1) es) rest) in
        let (ch', q', p'') =
          read_many-wires (record ch { stream = s'; seen = n ∷ ch.seen }) es (n + 1) rest hm hf.1
            (omega arith) (omega arith, Unseen-suc n ch.seen hu) p' in
        (ch', rw (q, q'), p'')

module _ (c : Codec) (a : Aead) {r q : Reader} where
  open c use {Envelope, serialize}

  -- What one end writes to a fresh connection is written without an exception, and the other end
  -- reads the same envelopes in the same order, if both use one key, the reader has marked no
  -- counter from the writer's on, its limit is below 2 ^ 32 and no frame exceeds it, the counter
  -- stays below 2 ^ 64, and the reader's stream begins with the written bytes.
  pub read_many-write_all :
      (ch : Channel r) (peer : Channel q) (es : List Envelope) (rest : Bytes)
      → ch.written ≡ []
      → ch.send_key ≡ peer.receive_key
      → peer.max_frame_size < 2 ^ 32
      → All (Fits c a peer.max_frame_size) es
      → ch.send_counter + length es < 2 ^ 64
      → Unseen ch.send_counter peer.seen
      → q.pending peer.stream ≡ (write_all c a es ch).1.written ++ rest
      → ((write_all c a es ch).0 ≡ ok tt) × ((read_many c a (length es) peer).0 ≡ ok es)
  read_many-write_all ch peer es rest fresh key hm hf hn hu p = (sent.0, ap (λ x. x.0) received.1)
    where
      n : ℕ
      n = ch.send_counter

      sent :
          ((write_all c a es ch).0 ≡ ok tt)
          × ((write_all c a es ch).1.written ≡ ch.written ++ wires c a ch.send_key n es)
      sent = write_all-wires c a ch es hn (All-map (λ e h. omega arith) es hf)

      received :
          (ch' : Channel q) × (read_many c a (length es) peer ≡ (ok es, ch'))
          × (q.pending ch'.stream ≡ rest)
      received = read_many-wires c a peer es n rest hm hf hn hu (
          p
          ∙ ap (λ w. w ++ rest)
              (sent.1
                ∙ ap (λ w. w ++ wires c a ch.send_key n es) fresh
                ∙ ap (λ k. wires c a k n es) key))
