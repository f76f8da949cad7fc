-- ===== src/Examples/Notifications.antt =====
-- A call of a phone's app, and a request that is made.
use linkable.Prelude.{◌≡◌, refl, false, some, [], ◌∷◌, Text, codes, arith}
use linkable.Prelude.Dict
use linkable.App.CallHistory.{CallNotification}
use linkable.App.Notifications.{
  Notification, Notifications, app_call_action_for, answer_call, record_notification,
  remove_notification, accept, is_known,
}
use linkable.App.Notifications.History.{Kept, record_notification-Kept}
use linkable.App.Notifications.Calls.{call_told_as_other-stays}
use linkable.App.Requests.{Outbox}

abbrev told : Text → CallNotification
told title = record {
  notification_id = codes "n";
  package_name = codes "app";
  app_name = codes "App";
  title = title;
  body = [];
  category = codes "call";
  call_state_hint = codes "ringing";
  posted_at_ms = 1;
  repr = [];
}

abbrev ended : Notification
ended = record {
  call = told (codes "Missed");
  channel_id = [];
  call_like = false;
  silent = false;
  actions = [];
}

-- The call is offered.
abbrev ringing : Notifications
ringing = record {
  notifications = [];
  history = [];
  fingerprints = [];
  latest_id = codes "n";
  latest_label = codes "App";
  latest_state = codes "ringing";
  latest_actions = (answer_call, codes "a") ∷ [];
  call_history = [];
}

ringing-Kept : Kept (λ b. b) (λ t. t) 0 ringing
unfolding Dict.get
ringing-Kept = record { short = omega arith; printed = λ id f h. absurd (cc) }

record_notification-Kept_example :
    let t = record_notification (λ b. b) (λ t. t) 0 ended ringing in
    Kept (λ b. b) (λ t. t) 0 t × (record_notification (λ b. b) (λ t. t) 0 ended t ≡ t)
record_notification-Kept_example =
    record_notification-Kept (λ b. b) (λ t. t) 0 ended ringing ringing-Kept

call_told_as_other-stays_example :
    app_call_action_for accept (
      remove_notification
        (λ b. b)
        (λ t. t)
        0
        (codes "n")
        (record_notification (λ b. b) (λ t. t) 0 ended ringing))
    ≡ app_call_action_for accept ringing
unfolding is_known Dict.get
call_told_as_other-stays_example =
    call_told_as_other-stays (λ b. b) (λ t. t) 0 accept ended ringing refl refl

abbrev outbox : Outbox
outbox = record { send_files = []; queues = λ k. []; server = some 0 }
