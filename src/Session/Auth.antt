-- ===== src/Session/Auth.antt =====
-- What the two ends of a session sign, and how old it may be:
-- desktop/src/linkable_desktop/session/auth.py.
use linkable.Prelude.{
  ℕ, zero, suc, ◌+◌, ◌-◌, ◌<◌, ◌≤◌, ◌^◌, ◌≡◌, ◌↔◌, refl, sym, ap, ◌∙◌, Bool, true, false, List, [],
  ◌∷◌, ◌++◌, Text, Bytes, codes, length, leb, ltb, if◌then◌else◌, arith,
}
use linkable.Prelude.Int.{ℤ, pos, negsuc, ◌≤ℤ◌, abs_diff, pos_part, neg_part}
use linkable.Prelude.Encoding.{to_bytes, utf8}
use linkable.Prelude.Exec.{Result, ok, err, Exec, ◌>>=◌, ◌>>◌, lift, struct_error}
use linkable.Transport.Framing.{pack_u32, emit}
pub mod Binding

pub record ProtocolVersion : Type 0 where
  pub major : ℕ
  pub minor : ℕ
  pub patch : ℕ

-- common_pb2.PeerDescriptor, with the fingerprint of its `device_id`.
pub record PeerDescriptor : Type 0 where
  pub fingerprint : Text
  pub device_name : Text
  pub platform : Text
  pub protocol_version : ProtocolVersion
  pub identity_public_key : Bytes

abbrev pub session_init_label : Bytes
session_init_label = codes "linkable-session-init-v1"

abbrev pub session_ack_label : Bytes
session_ack_label = codes "linkable-session-ack-v1"

-- struct.pack(">Q", n)
unfoldable pub pack_u64 : ℕ → Result Bytes
pack_u64 n = if ltb n (2 ^ 64) then ok (to_bytes 8 n) else err struct_error

-- struct.pack(">q", n), in two's complement
unfoldable pub pack_i64 : ℤ → Result Bytes
pack_i64 (pos n) = if ltb n (2 ^ 63) then ok (to_bytes 8 n) else err struct_error
pack_i64 (negsuc n) = if ltb n (2 ^ 63) then ok (to_bytes 8 (2 ^ 64 - suc n)) else err struct_error

-- The state is the buffer.
unfoldable pub append_field : Bytes → Exec Bytes (Unit {0})
unfolding pack_u32
append_field value = do size ← lift (pack_u32 (length value)); emit size; emit value

append_u64 : ℕ → Exec Bytes (Unit {0})
unfolding pack_u64
append_u64 n = do bytes ← lift (pack_u64 n); emit bytes

append_i64 : ℤ → Exec Bytes (Unit {0})
unfolding pack_i64
append_i64 n = do bytes ← lift (pack_i64 n); emit bytes

-- buffer.getvalue()
getvalue : Exec Bytes Bytes
getvalue buffer = (ok buffer, buffer)

unfoldable pub build_session_signature_payload :
    (label : Bytes) (descriptor : PeerDescriptor) (ephemeral_public_key : Bytes) (issued_at_ms : ℤ)
    → Result Bytes
unfolding append_field append_u64 append_i64 getvalue
build_session_signature_payload label descriptor ephemeral_public_key issued_at_ms =
    ((do
      append_field label
      append_field (utf8 descriptor.fingerprint)
      append_field (utf8 descriptor.device_name)
      append_field (utf8 descriptor.platform)
      append_field descriptor.identity_public_key
      append_field ephemeral_public_key
      append_u64 descriptor.protocol_version.major
      append_u64 descriptor.protocol_version.minor
      append_u64 descriptor.protocol_version.patch
      append_i64 issued_at_ms
      getvalue)
      []).0

unfoldable pub is_timestamp_fresh : (issued_at_ms : ℤ) (max_skew_ms : ℕ) (now_ms : ℤ) → Bool
unfolding abs_diff
is_timestamp_fresh issued_at_ms max_skew_ms now_ms = leb (abs_diff now_ms issued_at_ms) max_skew_ms

-- A time stamp is fresh exactly if it lies at most the allowed skew before or after the present
-- time.
pub is_timestamp_fresh_iff :
    (issued now : ℤ) (skew : ℕ)
    → (is_timestamp_fresh issued skew now ≡ true) ↔ (
        (pos_part now + neg_part issued ≤ pos_part issued + neg_part now + skew)
        × (pos_part issued + neg_part now ≤ pos_part now + neg_part issued + skew))
unfolding is_timestamp_fresh
is_timestamp_fresh_iff issued now skew = ground arith
