-- ===== src/Transfer/Sender/Chunks.antt =====
-- The chunks of a file and the numbers of its messages.
use linkable.Prelude.{
  ℕ, zero, suc, ◌+◌, ◌≤◌, ◌<◌, ◌≡◌, refl, ap, ◌∙◌, Option, none, some, List, [], ◌∷◌, ◌++◌, Text,
  Bytes, length, take, drop, arith, take-append-drop, length-take, length-drop, map,
}
use linkable.Transfer.{FileChunk}
use linkable.Transfer.Sender.{
  Message, offers, completes, Sequence, SequenceProvider, provide, next_sequence, file_chunks,
  number_messages, file_messages, chunk_messages, send_file,
}

-- Chunks of one transfer that follow each other from an offset on, each with one byte at least and
-- `most` at most.
abbrev pub Follow : Text → ℕ → ℕ → List FileChunk → Type 0
Follow id most offset [] = Unit
Follow id most offset (c ∷ cs) =
    (c.transfer_id ≡ id)
    × (c.offset ≡ offset)
    × (0 < length c.content)
    × (length c.content ≤ most)
    × Follow id most (offset + length c.content) cs

abbrev pub contents : List FileChunk → Bytes
contents [] = []
contents (c ∷ cs) = c.content ++ contents cs

-- The chunks follow each other from the first byte and make up the file.
pub file_chunks-Follow :
    (f : ℕ) (id : Text) (size offset : ℕ) (content : Bytes)
    → length content < f
    → 0 < size
    → Follow id size offset (file_chunks f id size offset content)
      × (contents (file_chunks f id size offset content) ≡ content)
unfolding file_chunks
file_chunks-Follow zero id size offset content hf hs = absurd (omega arith)
file_chunks-Follow (suc f) id zero offset content hf hs = absurd (omega arith)
file_chunks-Follow (suc f) id (suc size) offset [] hf hs = (tt, refl)
file_chunks-Follow (suc f) id (suc size) offset (b ∷ bs) hf hs =
    let (chained, joined) =
      file_chunks-Follow f id (suc size) (offset + suc (length (take size bs))) (drop size bs)
        (omega (arith, length-drop size bs)) hs in
    (
      (refl, refl, omega arith, omega (arith, length-take size bs), chained),
      ap (◌∷◌ b) (ap (◌++◌ (take size bs)) joined ∙ take-append-drop size bs),
    )

-- The numbers n, n + 1, … in order.
abbrev pub Consecutive {ℓ} : {A : Type ℓ} → ℕ → List (ℕ × A) → Type 0
Consecutive n [] = Unit
Consecutive n ((k, m) ∷ ms) = (k ≡ n) × Consecutive (n + 1) ms

-- Each number is above the one before, and the first one is n at least.
abbrev pub Increasing {ℓ} : {A : Type ℓ} → ℕ → List (ℕ × A) → Type 0
Increasing n [] = Unit
Increasing n ((k, m) ∷ ms) = (n ≤ k) × Increasing (k + 1) ms

-- The numbers of these messages: the caller's own are consecutive, and from a provider they
-- increase.
abbrev pub Numbered {ℓ} : {A : Type ℓ} → ℕ → Option SequenceProvider → List (ℕ × A) → Type 0
Numbered n none ms = Consecutive n ms
Numbered n (some p) ms = Increasing p.counter ms

-- What the caller's counter is after so many messages.
abbrev pub own_number : ℕ → Option SequenceProvider → ℕ → ℕ
own_number n none count = n + count
own_number n (some p) count = n

provided-Increasing :
    (n c : ℕ) (ks : List ℕ) (ms : List Message)
    → let p : SequenceProvider = record { counter = c; others = ks } in
      let (sent, s) = number_messages (record { sequence_number = n; provider = some p }) ms in
      Increasing c sent × (s.sequence_number ≡ n)
unfolding number_messages provide
provided-Increasing n c ks [] = (tt, refl)
provided-Increasing n c [] (m ∷ ms) =
    let (rest, same) = provided-Increasing n (c + 1) [] ms in ((omega arith, rest), same)
provided-Increasing n c (k ∷ ks) (m ∷ ms) =
    let (rest, same) = provided-Increasing n (c + k + 1) ks ms in ((omega arith, rest), same)

own-Consecutive :
    (n : ℕ) (ms : List Message)
    → let (sent, s) = number_messages (record { sequence_number = n; provider = none }) ms in
      Consecutive n sent × (s.sequence_number ≡ n + length ms)
unfolding number_messages
own-Consecutive n [] = (tt, omega arith)
own-Consecutive n (m ∷ ms) =
    let (rest, last) = own-Consecutive (n + 1) ms in ((refl, rest), omega (arith, last))

number_messages-Numbered :
    (n : ℕ) (o : Option SequenceProvider) (ms : List Message)
    → let (sent, s) = number_messages (record { sequence_number = n; provider = o }) ms in
      Numbered n o sent × (s.sequence_number ≡ own_number n o (length ms))
number_messages-Numbered n none ms = own-Consecutive n ms
number_messages-Numbered n (some p) ms = provided-Increasing n p.counter p.others ms

number_messages-messages :
    (s : Sequence) (ms : List Message) → map (λ x. x.1) (number_messages s ms).0 ≡ ms
unfolding number_messages
number_messages-messages s [] = refl
number_messages-messages s (m ∷ ms) = ap (◌∷◌ m) (number_messages-messages (next_sequence s).1 ms)

length-chunk_messages :
    (cs : List FileChunk) (m : Message) → length (chunk_messages cs ++ m ∷ []) ≡ length cs + 1
length-chunk_messages [] m = refl
length-chunk_messages (c ∷ cs) m = omega (arith, length-chunk_messages cs m)

-- For a positive chunk size `send_file` sends the offer with the file's size and hash, then chunks
-- that follow each other from the first byte and make up the file, then the completion with the
-- same hash. Without a provider the sequence numbers are consecutive from the caller's on, and the
-- number behind the last one is returned; with a provider, which another thread may call in
-- between, they increase, and the caller's number is returned.
pub send_file_lem :
    (sha256 : Bytes → Text) (id file_name mime_type : Text) (size : ℕ) (content : Bytes) (n : ℕ)
    (provider : Option SequenceProvider)
    → 0 < size
    → let s : Sequence = record { sequence_number = n; provider = provider } in
      (cs : List FileChunk) × (map
          (λ x. x.1)
          (send_file sha256 id file_name mime_type size content s).0
        ≡ offers (record {
          transfer_id = id;
          file_name = file_name;
          size_bytes = length content;
          sha256_hex = sha256 content;
          mime_type = mime_type;
          chunk_size = size;
        })
          ∷ (chunk_messages cs
              ++ completes (record { transfer_id = id; sha256_hex = sha256 content }) ∷ []))
      × Follow id size 0 cs
      × (contents cs ≡ content)
      × Numbered n provider (send_file sha256 id file_name mime_type size content s).0
      × ((send_file sha256 id file_name mime_type size content s).1
          ≡ own_number n provider (length cs + 2))
unfolding send_file file_messages
send_file_lem sha256 id file_name mime_type size content n provider h =
    let s : Sequence = record { sequence_number = n; provider = provider } in
    let (chained, joined) =
      file_chunks-Follow (suc (length content)) id size 0 content (omega arith) h in
    let ms = file_messages id file_name mime_type (sha256 content) size content in
    let numbers = number_messages-Numbered n provider ms in
    (
      file_chunks (suc (length content)) id size 0 content,
      number_messages-messages s ms,
      chained,
      joined,
      numbers.0,
      numbers.1
          ∙ ap (own_number n provider) (
              omega (
                arith,
                length-chunk_messages (file_chunks (suc (length content)) id size 0 content)
                    (completes (record { transfer_id = id; sha256_hex = sha256 content })),
              )),
    )
