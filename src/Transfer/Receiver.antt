-- ===== src/Transfer/Receiver.antt =====
-- `FileReceiver` of desktop/src/linkable_desktop/transfer/file_receiver.py: each method is an
-- action on the receiver's state. The time stamps of the results are not modelled, and a path in a
-- result stays a path. The hash of a file's bytes is the parameter `sha256`.
use linkable.Prelude.{
  ℕ, zero, suc, ◌+◌, ◌≡◌, Bool, true, false, not, Option, none, some, List, [], ◌∷◌, ◌++◌, Text,
  Bytes, codes, length, nat_eqb, if◌then◌else◌, ◌==◌, nat_eq, list_eq,
}
use linkable.Prelude.Dict.{Dict, get, put, remove}
use linkable.Prelude.Exec.{Result, ok, err, Exec, ◌>>=◌, ◌>>◌, lift, pure}
use linkable.Transfer.{FileOffer, FileChunk, FileComplete}
use linkable.Transfer.Paths.{
  FilePath, FileSystem, name, with_name, join, exists, unlink, append, read_file, replace,
}
use linkable.Transfer.Names.{Platform, safe_file_name, unique_path}
pub mod Offer
pub mod Inside
pub mod Parts
pub mod Delivery
pub mod Faults

-- _ActiveReceive
pub record ActiveReceive : Type 0 where
  pub offer : FileOffer
  pub temp_path : FilePath
  pub final_path : FilePath
  pub bytes_received : ℕ

pub record FileReceiver : Type 0 where
  pub files : FileSystem
  pub download_dir : FilePath
  pub active : Dict Text ActiveReceive

-- The text of a result's `detail`, by its form.
pub data Detail : Type 0 where
  accepted : Text → Detail
  unknown_transfer : Detail
  unexpected_offset : ℕ → ℕ → Detail
  size_mismatch : ℕ → ℕ → Detail
  sha256_mismatch : Detail
  received : Text → Detail

pub record FileTransferResult : Type 0 where
  pub transfer_id : Text
  pub success : Bool
  pub detail : Detail
  pub saved_path : Option FilePath
  pub bytes_received : ℕ

abbrev get_receiver : Exec FileReceiver FileReceiver
get_receiver s = (ok s, s)

-- An action on the files.
abbrev with_files : {A : Type 0} → Exec FileSystem A → Exec FileReceiver A
with_files m s = let (res, fs) = m s.files in (res, record s { files = fs })

set_active : Text → ActiveReceive → Exec FileReceiver (Unit {0})
set_active id entry s = (ok tt, record s { active = put s.active id entry })

-- self._active.pop(id, None)
pop_active : Text → Exec FileReceiver (Unit {0})
pop_active id s = (ok tt, record s { active = remove s.active id })

unfoldable pub unlink_if : Bool → FilePath → Exec FileSystem (Unit {0})
unlink_if true p = unlink p
unlink_if false p = pure tt

-- f"{name}.{transfer_id}.part"
unfoldable pub part_name : Text → Text → Text
part_name n id = n ++ b'.' ∷ (id ++ codes ".part")

unfoldable pub unknown : Text → FileTransferResult
unknown id = record {
  transfer_id = id;
  success = false;
  detail = unknown_transfer;
  saved_path = none;
  bytes_received = 0;
}

-- A result about an active transfer.
unfoldable pub about : Text → ActiveReceive → Bool → Detail → FileTransferResult
about id entry success detail = record {
  transfer_id = id;
  success = success;
  detail = detail;
  saved_path = some entry.final_path;
  bytes_received = entry.bytes_received;
}

module _ (p : Platform) where
  unfoldable pub handle_offer : FileOffer → Exec FileReceiver FileTransferResult
  unfolding set_active unlink_if part_name about
  handle_offer offer = do
    s ← get_receiver
    final_path ←
        lift (unique_path p s.files (join s.download_dir (safe_file_name p offer.file_name)))
    temp_path ← lift (with_name final_path (part_name (name final_path) offer.transfer_id))
    with_files (unlink_if (exists s.files temp_path) temp_path)
    let entry : ActiveReceive = record {
      offer = offer;
      temp_path = temp_path;
      final_path = final_path;
      bytes_received = 0;
    }
    set_active offer.transfer_id entry
    pure (about offer.transfer_id entry true (accepted offer.file_name))

-- `handle_chunk` after the lookup.
receive_chunk : FileChunk → Option ActiveReceive → Exec FileReceiver (Option FileTransferResult)
unfolding unknown about set_active pop_active
receive_chunk chunk none = pure (some (unknown chunk.transfer_id))
receive_chunk chunk (some entry) =
    if not (nat_eqb chunk.offset entry.bytes_received)
    then (do
      pop_active chunk.transfer_id
      with_files (unlink entry.temp_path)
      pure (
          some (
            about chunk.transfer_id entry false
              (unexpected_offset chunk.offset entry.bytes_received))))
    else (do
      with_files (append entry.temp_path chunk.content)
      set_active chunk.transfer_id
          (record entry { bytes_received = entry.bytes_received + length chunk.content })
      pure none)

unfoldable pub handle_chunk : FileChunk → Exec FileReceiver (Option FileTransferResult)
unfolding receive_chunk
handle_chunk chunk = do s ← get_receiver; receive_chunk chunk (get s.active chunk.transfer_id)

module _ (p : Platform) (sha256 : Bytes → Text) where
  open p use {lower}

  -- _sha256_hex
  sha256_hex_of : FilePath → Exec FileSystem Text
  sha256_hex_of path = do content ← read_file path; pure (sha256 content)

  -- `handle_complete` after the pop.
  finish : FileComplete → Option ActiveReceive → Exec FileReceiver FileTransferResult
  unfolding unknown about sha256_hex_of
  finish complete none = pure (unknown complete.transfer_id)
  finish complete (some entry) =
      if not (nat_eqb entry.bytes_received entry.offer.size_bytes)
      then (do
        with_files (unlink entry.temp_path)
        pure (
            about complete.transfer_id entry false
              (size_mismatch entry.bytes_received entry.offer.size_bytes)))
      else (do
        actual_sha ← with_files (sha256_hex_of entry.temp_path)
        (if not (lower actual_sha == lower complete.sha256_hex)
            then (do
              with_files (unlink entry.temp_path)
              pure (about complete.transfer_id entry false sha256_mismatch))
            else (do
              with_files (replace entry.temp_path entry.final_path)
              pure (about complete.transfer_id entry true (received entry.offer.file_name)))))

  unfoldable pub handle_complete : FileComplete → Exec FileReceiver FileTransferResult
  unfolding finish pop_active
  handle_complete complete = do
    s ← get_receiver
    pop_active complete.transfer_id
    finish complete (get s.active complete.transfer_id)
