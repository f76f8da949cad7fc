-- ===== src/App/Notifications.antt =====
-- The phone's notifications and the calls of its apps: `_record_notification`,
-- `_remove_notification`, `_app_call_action_for` and the methods that they call, in app/runtime.py,
-- each one step under the runtime's lock. The SHA-256 text of bytes, the identifiers of the call
-- history's entries and the clock are arguments; the callbacks to the windows are not modelled.
use linkable.Prelude.{
  ℕ, Bool, true, false, not, ◌&&◌, Option, none, some, List, [], ◌∷◌, ◌++◌, Text, Bytes, codes,
  if◌then◌else◌, ◌==◌, nat_eq, list_eq, nat_eqb, leb, length, take,
}
use linkable.Prelude.Decimal.{to_text}
use linkable.Prelude.Encoding.{utf8}
use linkable.Prelude.Dict.{Dict}
use linkable.Prelude.Dict
use linkable.App.Clipboard.{or_text}
use linkable.App.CallHistory.{
  CallNotification, CallHistoryEntry, digest_parts, call_entry_from_notification,
  append_call_history,
}
pub mod History
pub mod Calls

-- notifications_pb2.NotificationAction
pub record NotificationAction : Type 0 where
  pub action_id : Text
  pub title : Text
  pub semantic : ℕ
  pub supports_remote_input : Bool
  pub supports_plain_intent : Bool

-- notifications_pb2.NotificationPosted; `call` has the fields that an entry of the call history is
-- made of.
pub record Notification : Type 0 where
  pub call : CallNotification
  pub channel_id : Text
  pub call_like : Bool
  pub silent : Bool
  pub actions : List NotificationAction

-- The numbers of notifications_pb2.NotificationActionSemantic.
abbrev pub answer_call : ℕ
answer_call = 2

abbrev pub decline_call : ℕ
decline_call = 3

abbrev pub hang_up_call : ℕ
hang_up_call = 4

pub data CallControlAction : Type 0 where
  accept reject hangup other_action : CallControlAction

pub record Notifications : Type 0 where
  pub notifications : Dict Text Notification
  pub history : Dict Text Notification
  pub fingerprints : Dict Text Text
  pub latest_id : Text
  pub latest_label : Text
  pub latest_state : Text
  pub latest_actions : Dict ℕ Text
  pub call_history : List CallHistoryEntry

-- str(b)
abbrev bool_text : Bool → Text
bool_text true = codes "True"
bool_text false = codes "False"

action_parts : List NotificationAction → Bytes
action_parts [] = []
action_parts (a ∷ actions) =
    utf8 a.action_id
    ++ (utf8 a.title
        ++ (to_text a.semantic
            ++ (bool_text a.supports_remote_input
                ++ (bool_text a.supports_plain_intent ++ 0 ∷ action_parts actions))))

-- The call actions of a notification, by their meaning; a later one replaces an earlier one.
is_call_action : NotificationAction → Bool
is_call_action a =
    a.supports_plain_intent
    && (if nat_eqb a.semantic answer_call
        then true
        else if nat_eqb a.semantic decline_call
        then true
        else nat_eqb a.semantic hang_up_call)

call_actions : Dict ℕ Text → List NotificationAction → Dict ℕ Text
unfolding is_call_action
call_actions d [] = d
call_actions d (a ∷ actions) =
    call_actions (if is_call_action a then Dict.put d a.semantic a.action_id else d) actions

set_call : Notification → Dict ℕ Text → Notifications → Notifications
unfolding or_text
set_call n [] s = s
set_call n (a ∷ actions) s = record s {
  latest_id = n.call.notification_id;
  latest_label = or_text n.call.app_name n.call.package_name;
  latest_state = n.call.call_state_hint;
  latest_actions = a ∷ actions;
}

unfoldable pub record_app_call_actions : Notification → Notifications → Notifications
unfolding call_actions set_call
record_app_call_actions n s = set_call n (call_actions [] n.actions) s

unfoldable pub clear_app_call_if_current : Text → Notifications → Notifications
clear_app_call_if_current id s =
    if id == s.latest_id
    then record s { latest_id = []; latest_label = []; latest_state = []; latest_actions = [] }
    else s

-- The newest first; of two of one time, the one that was there first.
insert_recent : Text → Notification → Dict Text Notification → Dict Text Notification
insert_recent id n [] = (id, n) ∷ []
insert_recent id n ((other, m) ∷ d) =
    let rest = insert_recent id n d in
    if leb m.call.posted_at_ms n.call.posted_at_ms
    then (id, n) ∷ (other, m) ∷ d
    else (other, m) ∷ rest

sort_recent : Dict Text Notification → Dict Text Notification
unfolding insert_recent
sort_recent [] = []
sort_recent ((id, n) ∷ d) = insert_recent id n (sort_recent d)

unfoldable pub trim_notification_history : Dict Text Notification → Dict Text Notification
unfolding sort_recent
trim_notification_history h = if leb (length h) 200 then h else take 200 (sort_recent h)

notifications_of : Dict Text Notification → List Notification
notifications_of [] = []
notifications_of ((id, n) ∷ d) = n ∷ notifications_of d

unfoldable pub shown_notifications : Notifications → List Notification
unfolding sort_recent notifications_of
shown_notifications s = notifications_of (sort_recent s.notifications)

unfoldable pub notification_history : Notifications → List Notification
unfolding sort_recent notifications_of
notification_history s = notifications_of (sort_recent s.history)

module _ (sha256 : Bytes → Text) (event_id : Text → Text) (now_ms : ℕ) where
  unfoldable pub notification_fingerprint : Notification → Text
  unfolding action_parts digest_parts
  notification_fingerprint n = sha256 (
      digest_parts (
        n.call.package_name
        ∷ n.call.app_name
        ∷ n.call.title
        ∷ n.call.body
        ∷ n.channel_id
        ∷ n.call.category
        ∷ n.call.call_state_hint
        ∷ bool_text n.call_like
        ∷ bool_text n.silent
        ∷ [])
      ++ action_parts n.actions)

  -- An entry of the call history, with the state that is told.
  log_call : Notification → Text → Notifications → Notifications
  unfolding call_entry_from_notification append_call_history
  log_call n state s = record s {
    call_history =
        (append_call_history sha256 s.call_history
          (call_entry_from_notification n.call state event_id now_ms)).1;
  }

  note_call : Bool → Notification → Notifications → Notifications
  unfolding log_call record_app_call_actions
  note_call true n s = log_call n [] (record_app_call_actions n s)
  note_call false n s = s

  keep : Notification → Notifications → Notifications
  unfolding trim_notification_history notification_fingerprint
  keep n s = record s {
    notifications = Dict.put s.notifications n.call.notification_id n;
    history = trim_notification_history (Dict.put s.history n.call.notification_id n);
    fingerprints = Dict.put s.fingerprints n.call.notification_id (notification_fingerprint n);
  }

  unfoldable pub is_known : Text → Option Text → Bool
  is_known fingerprint none = false
  is_known fingerprint (some known) = known == fingerprint

  unfoldable pub record_notification : Notification → Notifications → Notifications
  unfolding note_call keep is_known
  record_notification n s =
      if is_known (notification_fingerprint n) (Dict.get s.fingerprints n.call.notification_id)
      then s
      else note_call n.call_like n (keep n s)

  remove_call : Text → Notification → Notifications → Notifications
  unfolding log_call clear_app_call_if_current
  remove_call id n s = log_call n (codes "ended") (
      clear_app_call_if_current id (record s {
        notifications = Dict.remove s.notifications id;
        fingerprints = Dict.remove s.fingerprints id;
      }))

  remove_found : Text → Option Notification → Notifications → Notifications
  unfolding remove_call
  remove_found id none s = s
  remove_found id (some n) s = if n.call_like then remove_call id n s else s

  unfoldable pub remove_notification : Text → Notifications → Notifications
  unfolding remove_found
  remove_notification id s = remove_found id (Dict.get s.notifications id) s

candidates : CallControlAction → List ℕ
candidates accept = answer_call ∷ []
candidates reject = decline_call ∷ hang_up_call ∷ []
candidates hangup = hang_up_call ∷ decline_call ∷ []
candidates other_action = []

first_action : Dict ℕ Text → List ℕ → Text
first_action actions [] = []
first_action actions (semantic ∷ semantics) =
    let rest = first_action actions semantics in
    elim (Dict.get actions semantic) [
      | none ↦ rest
      | some [] ↦ rest
      | some (c ∷ action_id) ↦ c ∷ action_id
    ]

-- The notification, the action and the label; each empty if there is none.
unfoldable pub app_call_action_for : CallControlAction → Notifications → Text × (Text × Text)
unfolding candidates first_action
app_call_action_for action s = elim (s.latest_id) [
  | [] ↦ ([], ([], []))
  | c ∷ id ↦ (c ∷ id, (first_action s.latest_actions (candidates action), s.latest_label))
]
