-- ===== src/Examples/Transfer.antt =====
-- File transfers at concrete names and contents.
use linkable.Prelude.{
  ℕ, ◌≡◌, ◌≢◌, refl, ap, length, true, false, Option, none, some, List, [], ◌∷◌, ◌++◌, Text, codes,
  arith, map, list_beq, nat_eq, list_eq,
}
use linkable.Prelude.Decimal.{to_text}
use linkable.Prelude.Dict.{get}
use linkable.Prelude.Exec.{ok, err, file_not_found_error}
use linkable.Transfer.{FileOffer, FileChunk}
use linkable.Transfer.Paths.{
  FilePath, FileSystem, dir, file, exists, has_slash, bad_name, join, with_name, name,
}
use linkable.Transfer.Names.{safe_file_name, unique_path}
use linkable.Transfer.Names.Free.{unique_path-ends}
use linkable.Transfer.Sender.{
  offers, completes, Sequence, SequenceProvider, send_file, chunk_messages, file_messages,
}
use linkable.Transfer.Sender.Chunks.{send_file_lem, Follow, contents, Numbered}
use linkable.Transfer.Receiver.{
  FileReceiver, ActiveReceive, FileTransferResult, handle_offer, handle_chunk, about, unknown,
  unexpected_offset, handle_complete, accepted,
}
use linkable.Transfer.Receiver.Offer.{entry_of}
use linkable.Transfer.Receiver.Inside.{offer_inside, offer_outside}
use linkable.Transfer.Receiver.Delivery.{send-receive, receive_all, offer_of}
use linkable.Transfer.Receiver.Faults.{chunk_at_wrong_offset, empty_file_raises, same_path_twice}
use linkable.Examples.Fixtures.{ascii}

abbrev home : FilePath
home = codes "d" ∷ []

-- The download directory has one file, "a".
abbrev files : FileSystem
files = (home, dir) ∷ (codes ".." ∷ home, dir) ∷ (codes "a" ∷ home, file (1 ∷ [])) ∷ []

abbrev receiver : FileReceiver
receiver = record { files = files; download_dir = home; active = [] }

abbrev offer : Text → ℕ → FileOffer
offer name size = record {
  transfer_id = codes "t";
  file_name = name;
  size_bytes = size;
  sha256_hex = [];
  mime_type = [];
  chunk_size = 2;
}

-- The reply that accepts an offer, with the path it promises.
abbrev acceptance : FileOffer → FilePath → FileTransferResult
acceptance o path = record {
  transfer_id = o.transfer_id;
  success = true;
  detail = accepted o.file_name;
  saved_path = some path;
  bytes_received = 0;
}

unique_path-ends_example :
    (found : FilePath) × (unique_path ascii files (codes "a" ∷ home) ≡ ok found)
unfolding has_slash
unique_path-ends_example = unique_path-ends ascii files (codes "a") home refl

x_ne_dot : codes "x" ≢ codes "."
x_ne_dot e = cc

offer_inside_example :
    (m : Text) × (some (codes "x" ∷ home) ≡ some (m ∷ home))
    × (bad_name m ≡ false)
    × (m ≢ codes "..")
unfolding handle_offer unique_path exists get list_beq join safe_file_name with_name name to_text
offer_inside_example =
    offer_inside ascii receiver (offer (codes "../x") 3)
      (acceptance (offer (codes "../x") 3) (codes "x" ∷ home)) x_ne_dot refl refl

offer_outside_example : (m : Text) × (some (codes "d-1" ∷ []) ≡ some (m ∷ [])) × (m ≢ codes "d")
unfolding handle_offer unique_path exists get list_beq join safe_file_name with_name name to_text
offer_outside_example =
    offer_outside ascii receiver (offer (codes " .") 3)
      (acceptance (offer (codes " .") 3) (codes "d-1" ∷ [])) (codes "d") [] refl refl refl refl

abbrev partial : ActiveReceive
partial = record {
  offer = offer (codes "x") 3;
  temp_path = codes "x.part" ∷ home;
  final_path = codes "x" ∷ home;
  bytes_received = 2;
}

abbrev busy : FileReceiver
busy = record {
  files = (codes "x.part" ∷ home, file (1 ∷ 2 ∷ [])) ∷ files;
  download_dir = home;
  active = (codes "t", partial) ∷ [];
}

abbrev chunk : ℕ → FileChunk
chunk offset = record { transfer_id = codes "t"; offset = offset; content = 3 ∷ [] }

file_ne_dir : some (file (1 ∷ 2 ∷ [])) ≢ some dir
file_ne_dir e = cc

a_ne_part : ◌≢◌ {A = FilePath} (codes "a" ∷ home) (codes "x.part" ∷ home)
a_ne_part e = cc

-- A chunk at offset 0 after two bytes.
chunk_at_wrong_offset_example :
    let out = handle_chunk (chunk 0) busy in
    (out.0 ≡ ok (some (about (codes "t") partial false (unexpected_offset 0 2))))
    × (get out.1.files (codes "x.part" ∷ home) ≡ none)
    × (get out.1.files (codes "a" ∷ home) ≡ get busy.files (codes "a" ∷ home))
    × (handle_chunk (chunk 2) out.1 ≡ (ok (some (unknown (codes "t"))), out.1))
unfolding get list_beq
chunk_at_wrong_offset_example =
    chunk_at_wrong_offset busy partial (chunk 0) (chunk 2) (codes "a" ∷ home) refl
      (λ e. absurd (omega (arith, e))) file_ne_dir refl a_ne_part

empty_file_raises_example :
    (handle_complete ascii
      (λ b. b)
      (record { transfer_id = codes "t"; sha256_hex = [] })
      (handle_offer ascii (offer (codes "x") 0) receiver).1).0
    ≡ err file_not_found_error
unfolding handle_offer unique_path exists get list_beq join safe_file_name with_name name to_text
empty_file_raises_example =
    empty_file_raises ascii (λ b. b) receiver (offer (codes "x") 0)
      (acceptance (offer (codes "x") 0) (codes "x" ∷ home))
      (record { transfer_id = codes "t"; sha256_hex = [] }) refl refl refl

abbrev other_offer : FileOffer
other_offer = record {
  transfer_id = codes "tu";
  file_name = codes "x";
  size_bytes = 5;
  sha256_hex = [];
  mime_type = [];
  chunk_size = 2;
}

t_ne_tu : ◌≢◌ {A = Text} (codes "t") (codes "tu")
t_ne_tu e = omega (arith, ap length e)

abbrev both_active : List (Text × ActiveReceive)
both_active =
    (handle_offer ascii other_offer (handle_offer ascii (offer (codes "x") 3) receiver).1).1.active

same_path_twice_example :
    (path : FilePath) × (exists files path ≡ false)
    × (some (codes "x" ∷ home) ≡ some path)
    × (some (codes "x" ∷ home) ≡ some path)
    × ((temp : FilePath) × (get both_active (codes "t")
          ≡ some (entry_of ascii (offer (codes "x") 3) temp path)))
    × ((temp : FilePath) × (get both_active (codes "tu")
          ≡ some (entry_of ascii other_offer temp path)))
unfolding handle_offer unique_path exists get list_beq join safe_file_name with_name name to_text
same_path_twice_example =
    same_path_twice ascii (λ b. b) receiver (offer (codes "x") 3) other_offer
      (acceptance (offer (codes "x") 3) (codes "x" ∷ home))
      (acceptance other_offer (codes "x" ∷ home)) refl t_ne_tu refl refl refl

-- Another thread takes three numbers before the second call.
abbrev provider : Option SequenceProvider
provider = some (record { counter = 100; others = 0 ∷ 3 ∷ [] })

abbrev counter : Sequence
counter = record { sequence_number = 0; provider = provider }

send_file_lem_example :
    (cs : List FileChunk) × (map
        (λ x. x.1)
        (send_file (λ b. b) (codes "t") (codes "x") [] 2 (1 ∷ 2 ∷ 3 ∷ []) counter).0
      ≡ offers (record {
        transfer_id = codes "t";
        file_name = codes "x";
        size_bytes = 3;
        sha256_hex = 1 ∷ 2 ∷ 3 ∷ [];
        mime_type = [];
        chunk_size = 2;
      })
        ∷ (chunk_messages cs
            ++ completes (record { transfer_id = codes "t"; sha256_hex = 1 ∷ 2 ∷ 3 ∷ [] }) ∷ []))
    × Follow (codes "t") 2 0 cs
    × (contents cs ≡ 1 ∷ 2 ∷ 3 ∷ [])
    × Numbered 0 provider
        (send_file (λ b. b) (codes "t") (codes "x") [] 2 (1 ∷ 2 ∷ 3 ∷ []) counter).0
    × ((send_file (λ b. b) (codes "t") (codes "x") [] 2 (1 ∷ 2 ∷ 3 ∷ []) counter).1 ≡ 0)
send_file_lem_example =
    send_file_lem (λ b. b) (codes "t") (codes "x") [] 2 (1 ∷ 2 ∷ 3 ∷ []) 0 provider (omega arith)

send-receive_example :
    (path : FilePath) × (last : FileTransferResult) × (some (codes "x" ∷ home) ≡ some path)
    × (exists files path ≡ false)
    × ((receive_all ascii
          (λ b. b)
          (file_messages (codes "t") (codes "x") [] (1 ∷ 2 ∷ 3 ∷ []) 2 (1 ∷ 2 ∷ 3 ∷ []))
          receiver).0
        ≡ ok (
            acceptance
              (offer_of ascii (λ b. b) (codes "t") (codes "x") [] 2 (1 ∷ 2 ∷ 3 ∷ []))
              (codes "x" ∷ home)
            ∷ last
            ∷ []))
    × (last.success ≡ true)
    × (last.saved_path ≡ some path)
    × (get
          (receive_all ascii
            (λ b. b)
            (file_messages (codes "t") (codes "x") [] (1 ∷ 2 ∷ 3 ∷ []) 2 (1 ∷ 2 ∷ 3 ∷ []))
            receiver).1.files
          path
        ≡ some (file (1 ∷ 2 ∷ 3 ∷ [])))
    × (get
          (receive_all ascii
            (λ b. b)
            (file_messages (codes "t") (codes "x") [] (1 ∷ 2 ∷ 3 ∷ []) 2 (1 ∷ 2 ∷ 3 ∷ []))
            receiver).1.active
          (codes "t")
        ≡ none)
unfolding handle_offer unique_path exists get list_beq join safe_file_name with_name name to_text
send-receive_example =
    send-receive ascii (λ b. b) receiver (codes "t") (codes "x") [] 2 (1 ∷ 2 ∷ 3 ∷ [])
      (acceptance (offer_of ascii (λ b. b) (codes "t") (codes "x") [] 2 (1 ∷ 2 ∷ 3 ∷ []))
        (codes "x" ∷ home))
      (omega arith) (omega arith) refl
