-- ===== src/Transfer/Receiver/Parts.antt =====
-- The part file of a transfer while its chunks come.
use linkable.Prelude.{
  ◌+◌, ◌<◌, ◌≡◌, ◌≢◌, refl, sym, ap, ◌∙◌, true, false, Option, none, some, List, [], ◌∷◌, ◌++◌,
  Text, Bytes, codes, length, nat_eqb, nat_eq, list_eq, arith, length-append, ==_iff,
}
use linkable.Prelude.Dict.{get, put, get-put, get-put_self, get-remove, get-remove_self}
use linkable.Prelude.Exec.{ok}
use linkable.Transfer.{FileChunk}
use linkable.Transfer.Paths.{
  FilePath, FileSystem, Node, file, name, with_name, exists, unlink, append,
}
use linkable.Transfer.Receiver.{FileReceiver, ActiveReceive, unlink_if, part_name, handle_chunk}

-- The part file after these bytes: it is made by the first chunk.
abbrev pub part_file : Bytes → Option Node
part_file [] = none
part_file (b ∷ bs) = some (file (b ∷ bs))

-- A transfer of which these bytes have come.
pub record Progress (s : FileReceiver) (id : Text) (entry : ActiveReceive) (before : Bytes)
    : Type 0 where
  pub listed : get s.active id ≡ some (record entry { bytes_received = length before })
  pub partial : get s.files entry.temp_path ≡ part_file before
  pub target : get s.files entry.final_path ≡ none
  pub apart : entry.temp_path ≢ entry.final_path

append-part :
    (fs : FileSystem) (q : FilePath) (before content : Bytes)
    → get fs q ≡ part_file before
    → append q content fs ≡ (ok tt, put fs q (file (before ++ content)))
unfolding append
append-part fs q [] content h = rw (h, append) refl
append-part fs q (b ∷ bs) content h = rw (h, append) refl

pub part_file-nonempty : (bs : Bytes) → 0 < length bs → part_file bs ≡ some (file bs)
part_file-nonempty [] h = absurd (omega arith)
part_file-nonempty (b ∷ bs) h = refl

-- The state after a chunk that fits.
abbrev pub with_chunk : FileReceiver → ActiveReceive → Bytes → FileChunk → FileReceiver
with_chunk s entry before chunk = record s {
  files = put s.files entry.temp_path (file (before ++ chunk.content));
  active =
      put s.active chunk.transfer_id
        (record entry { bytes_received = length before + length chunk.content });
}

pub handle_chunk-good :
    (s : FileReceiver) (entry : ActiveReceive) (before : Bytes) (chunk : FileChunk)
    → get s.active chunk.transfer_id ≡ some (record entry { bytes_received = length before })
    → get s.files entry.temp_path ≡ part_file before
    → chunk.offset ≡ length before
    → handle_chunk chunk s ≡ (ok none, with_chunk s entry before chunk)
unfolding handle_chunk
handle_chunk-good s entry before chunk listed partial o =
    let same : nat_eqb chunk.offset (length before) ≡ true = ground arith in
    rw (listed, handle_chunk)
      (rw (same, append-part s.files entry.temp_path before chunk.content partial) refl)

pub with_chunk-Progress :
    (s : FileReceiver) (entry : ActiveReceive) (before : Bytes) (chunk : FileChunk)
    → Progress s chunk.transfer_id entry before
    → 0 < length chunk.content
    → Progress (with_chunk s entry before chunk) chunk.transfer_id entry (before ++ chunk.content)
with_chunk-Progress s entry before chunk h l = record {
  listed =
      get-put_self s.active chunk.transfer_id _
      ∙ ap (λ n. some (record entry { bytes_received = n }))
          (sym (length-append before chunk.content));
  partial =
      get-put_self s.files entry.temp_path _
      ∙ sym (
          part_file-nonempty (before ++ chunk.content)
            (omega (arith, length-append before chunk.content)));
  target = ground (
    arith,
    get-put s.files entry.temp_path entry.final_path (file (before ++ chunk.content)),
    ==_iff entry.temp_path entry.final_path,
    h.apart,
    h.target,
  );
  apart = h.apart;
}

pub unlink_if-none :
    (fs : FileSystem) (q : FilePath)
    → (unlink_if (exists fs q) q fs).0 ≡ ok tt
    → get (unlink_if (exists fs q) q fs).1 q ≡ none
unfolding unlink_if exists unlink
unlink_if-none fs q h = ground (arith, get-remove_self fs q)

pub unlink_if-other :
    (fs : FileSystem) (q target : FilePath)
    → get fs target ≡ none
    → get (unlink_if (exists fs q) q fs).1 target ≡ none
unfolding unlink_if exists unlink
unlink_if-other fs q target h = ground (arith, get-remove fs q target)

pub exists_false : (fs : FileSystem) (q : FilePath) → exists fs q ≡ false → get fs q ≡ none
unfolding exists
exists_false fs q h = ground arith

pub with_name-ne :
    (q : FilePath) (id : Text) (temp : FilePath)
    → with_name q (part_name (name q) id) ≡ ok temp
    → temp ≢ q
unfolding with_name name part_name
with_name-ne [] id temp h e = cc
with_name-ne (n ∷ parents) id temp h e =
    let longer : n ++ b'.' ∷ (id ++ codes ".part") ≡ n =
      cc (renamed n parents temp (part_name n id) h) in
    absurd (omega (arith, ap length longer, length-append n (b'.' ∷ (id ++ codes ".part"))))
  where
    renamed :
        (m : Text) (ps : List Text) (q : FilePath) (k : Text)
        → with_name (m ∷ ps) k ≡ ok q
        → q ≡ k ∷ ps
    renamed m ps q k h = ground arith
