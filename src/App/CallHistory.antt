-- ===== src/App/CallHistory.antt =====
-- The call history: `_append_call_history_locked`, `_call_history_fingerprint` and
-- `_call_entry_from_notification` of app/runtime.py. The representation of a message as text and
-- the clock's readings are arguments.
use linkable.Prelude.{
  ℕ, suc, zero, ◌≤◌, ◌<◌, ◌+◌, ◌≡◌, ◌≢◌, refl, sym, ap, ◌∙◌, Bool, true, false, not, ◌||◌, Option,
  none, some, List, [], ◌∷◌, ◌++◌, Text, Bytes, codes, if◌then◌else◌, ◌==◌, ==_iff, ==_refl, nat_eq,
  list_eq, length, take, length-take, arith, Bool-cases, inl, inr, nat_eqb,
}
use linkable.Prelude.Encoding.{utf8}
use linkable.App.Clipboard.{or_text}
pub mod Window

pub record CallHistoryEntry : Type 0 where
  pub event_id : Text
  pub timestamp_ms : ℕ
  pub source : Text
  pub caller : Text
  pub state : Text
  pub direction : Text
  pub route : Text
  pub sim : Text
  pub detail : Text
  pub raw : Text

-- Each part, with a zero byte after it.
unfoldable pub digest_parts : List Text → Bytes
digest_parts [] = []
digest_parts (part ∷ parts) = utf8 part ++ 0 ∷ digest_parts parts

-- notifications_pb2.NotificationPosted, as far as an entry is made of it.
pub record CallNotification : Type 0 where
  pub notification_id : Text
  pub package_name : Text
  pub app_name : Text
  pub title : Text
  pub body : Text
  pub category : Text
  pub call_state_hint : Text
  pub posted_at_ms : ℕ
  pub repr : Text

-- "; ".join(part for part in parts if part)
unfoldable pub join_parts : List Text → Text
join_parts [] = []
join_parts ([] ∷ parts) = join_parts parts
join_parts ((c ∷ part) ∷ parts) = elim (join_parts parts) [
  | [] ↦ c ∷ part
  | d ∷ rest ↦ (c ∷ part) ++ codes "; " ++ d ∷ rest
]

-- The number in the event's identifier and the present time come from the clock.
unfoldable pub call_entry_from_notification :
    (n : CallNotification) (state_override : Text) (event_id : Text → Text) (now_ms : ℕ)
    → CallHistoryEntry
unfolding or_text join_parts
call_entry_from_notification n state_override event_id now_ms =
    let state = or_text state_override (or_text n.call_state_hint (codes "notification")) in
    record {
      event_id = event_id state;
      timestamp_ms = if nat_eqb n.posted_at_ms 0 then now_ms else n.posted_at_ms;
      source = or_text n.app_name (or_text n.package_name (codes "Phone app"));
      caller = or_text n.title (or_text n.body (codes "Unknown caller"));
      state = state;
      direction = codes "app notification";
      route = codes "notification action";
      sim = [];
      detail = join_parts (n.body ∷ n.category ∷ n.package_name ∷ []);
      raw = n.repr;
    }

module _ (sha256 : Bytes → Text) where
  unfoldable pub call_history_fingerprint : CallHistoryEntry → Text
  unfolding digest_parts
  call_history_fingerprint e =
      sha256 (
        digest_parts
          (e.source ∷ e.caller ∷ e.state ∷ e.direction ∷ e.route ∷ e.sim ∷ e.detail ∷ []))

  unfoldable pub is_repeated : Text → List CallHistoryEntry → Bool
  is_repeated fingerprint [] = false
  is_repeated fingerprint (existing ∷ entries) =
      call_history_fingerprint existing == fingerprint || is_repeated fingerprint entries

  unfoldable pub append_call_history :
      List CallHistoryEntry → CallHistoryEntry → Bool × List CallHistoryEntry
  unfolding is_repeated
  append_call_history history entry =
      if is_repeated (call_history_fingerprint entry) (take 12 history)
      then (false, history)
      else (true, take 160 (entry ∷ history))
