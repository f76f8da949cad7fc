-- ===== src/Transfer/Sender.antt =====
-- `send_file` of desktop/src/linkable_desktop/transfer/file_sender.py: the messages that it
-- writes, in order, each with its sequence number, if no write fails. The identifier, the guessed
-- type and the hash come from libraries and are arguments.
use linkable.Prelude.{
  ℕ, zero, suc, ◌+◌, Option, none, some, List, [], ◌∷◌, ◌++◌, Text, Bytes, length, take, drop,
}
use linkable.Transfer.{FileOffer, FileChunk, FileComplete}
pub mod Chunks

pub data Message : Type 0 where
  offers : FileOffer → Message
  sends : FileChunk → Message
  completes : FileComplete → Message

-- A provider of sequence numbers that another thread calls too: the next number, and how many the
-- other thread takes before each coming call (none, after the list).
pub record SequenceProvider : Type 0 where
  pub counter : ℕ
  pub others : List ℕ

pub provide : SequenceProvider → ℕ × SequenceProvider
provide p = elim p.others [
  | [] ↦ (p.counter, record { counter = p.counter + 1; others = [] })
  | k ∷ ks ↦ (p.counter + k, record { counter = p.counter + k + 1; others = ks })
]

-- The caller's own counter of sequence numbers, and the provider if there is one.
pub record Sequence : Type 0 where
  pub sequence_number : ℕ
  pub provider : Option SequenceProvider

unfoldable pub next_sequence : Sequence → ℕ × Sequence
unfolding provide
next_sequence s = elim s.provider [
  | some p ↦ let (n, p') = provide p in (n, record s { provider = some p' })
  | none ↦ (s.sequence_number, record s { sequence_number = s.sequence_number + 1 })
]

-- The reads of the file from an offset on: `handle.read(chunk_size)` until it returns nothing.
unfoldable pub file_chunks : ℕ → Text → ℕ → ℕ → Bytes → List FileChunk
file_chunks zero transfer_id chunk_size offset content = []
file_chunks (suc f) transfer_id chunk_size offset content = elim (take chunk_size content) [
  | [] ↦ []
  | b ∷ bs ↦
      record { transfer_id = transfer_id; offset = offset; content = b ∷ bs }
      ∷ file_chunks f transfer_id chunk_size (offset + length (b ∷ bs)) (drop chunk_size content)
]

-- Writes each message under the next sequence number.
unfoldable pub number_messages : Sequence → List Message → List (ℕ × Message) × Sequence
unfolding next_sequence
number_messages s [] = ([], s)
number_messages s (m ∷ ms) =
    let (n, s') = next_sequence s in let (sent, s'') = number_messages s' ms in ((n, m) ∷ sent, s'')

abbrev pub chunk_messages : List FileChunk → List Message
chunk_messages [] = []
chunk_messages (c ∷ cs) = sends c ∷ chunk_messages cs

-- What is sent of a file. Each round of the loop reads a byte at least.
unfoldable pub file_messages :
    (transfer_id file_name mime_type sha256_hex : Text) (chunk_size : ℕ) (content : Bytes)
    → List Message
unfolding file_chunks
file_messages transfer_id file_name mime_type sha256_hex chunk_size content =
    offers (record {
      transfer_id = transfer_id;
      file_name = file_name;
      size_bytes = length content;
      sha256_hex = sha256_hex;
      mime_type = mime_type;
      chunk_size = chunk_size;
    })
    ∷ (chunk_messages (file_chunks (suc (length content)) transfer_id chunk_size 0 content)
        ++ completes (record { transfer_id = transfer_id; sha256_hex = sha256_hex }) ∷ [])

module _ (sha256 : Bytes → Text) where
  -- The messages with their numbers, and the number that the call returns.
  unfoldable pub send_file :
      (transfer_id file_name mime_type : Text) (chunk_size : ℕ) (content : Bytes)
      → Sequence
      → List (ℕ × Message) × ℕ
  unfolding number_messages file_messages
  send_file transfer_id file_name mime_type chunk_size content s =
      let (sent, s') =
        number_messages s
          (file_messages transfer_id file_name mime_type (sha256 content) chunk_size content) in
      (sent, s'.sequence_number)
