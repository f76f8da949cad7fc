-- ===== src/Transfer.antt =====
-- File transfer, desktop/src/linkable_desktop/transfer/: the messages, and the parts.
use linkable.Prelude.{ℕ, Text, Bytes}
pub mod Paths
pub mod Names
pub mod Receiver
pub mod Sender

-- files_pb2.FileOffer; its time stamp is not modelled.
pub record FileOffer : Type 0 where
  pub transfer_id : Text
  pub file_name : Text
  pub size_bytes : ℕ
  pub sha256_hex : Text
  pub mime_type : Text
  pub chunk_size : ℕ

-- files_pb2.FileChunk; its field `data` is `content` here.
pub record FileChunk : Type 0 where
  pub transfer_id : Text
  pub offset : ℕ
  pub content : Bytes

-- files_pb2.FileComplete
pub record FileComplete : Type 0 where
  pub transfer_id : Text
  pub sha256_hex : Text
