-- ===== src/App/Notifications/Calls.antt =====
-- The call of a phone's app that the desktop offers to answer.
use linkable.Prelude.{
  ℕ, ◌≡◌, refl, ap, ◌∙◌, true, false, some, [], Text, Bytes, ==_refl, nat_eq, list_eq,
}
use linkable.Prelude.Dict.{Dict, get-put_self}
use linkable.Prelude.Dict
use linkable.App.Notifications.{
  Notification, Notifications, CallControlAction, app_call_action_for, clear_app_call_if_current,
  notification_fingerprint, log_call, note_call, keep, is_known, record_notification, remove_call,
  remove_found, remove_notification,
}

-- No call is offered.
abbrev pub no_call : Text × (Text × Text)
no_call = ([], ([], []))

clear-no_call :
    (action : CallControlAction) (id : Text) (s : Notifications)
    → s.latest_id ≡ id
    → app_call_action_for action (clear_app_call_if_current id s) ≡ no_call
unfolding clear_app_call_if_current app_call_action_for
clear-no_call action id s h = rw h (rw (==_refl id) refl)

module _ (sha256 : Bytes → Text) (event_id : Text → Text) (now_ms : ℕ) where
  -- After the removal of the call notification that is offered, no call is offered.
  pub remove_notification-ends_call :
      (action : CallControlAction) (n : Notification) (s : Notifications)
      → Dict.get s.notifications s.latest_id ≡ some n
      → n.call_like ≡ true
      → app_call_action_for action (remove_notification sha256 event_id now_ms s.latest_id s)
        ≡ no_call
  unfolding remove_notification remove_found remove_call log_call app_call_action_for
  remove_notification-ends_call action n s h c =
      rw h (rw c (clear-no_call action s.latest_id _ refl))

  -- If the call that is offered is told again as no call, under the same identifier, and then
  -- removed, its actions are offered still: neither step clears them.
  pub call_told_as_other-stays :
      (action : CallControlAction) (n : Notification) (s : Notifications)
      → n.call_like ≡ false
      → is_known sha256 event_id now_ms
          (notification_fingerprint sha256 event_id now_ms n)
          (Dict.get s.fingerprints n.call.notification_id)
        ≡ false
      → let id = n.call.notification_id in
        let told = record_notification sha256 event_id now_ms n s in
        app_call_action_for action (remove_notification sha256 event_id now_ms id told)
        ≡ app_call_action_for action s
  call_told_as_other-stays action n s c new =
      ap (λ t. app_call_action_for action (remove_notification sha256 event_id now_ms id t)) told
      ∙ ap (app_call_action_for action) stays
      ∙ unfold app_call_action_for in unfold keep in refl
    where
      id : Text
      id = n.call.notification_id

      k : Notifications
      k = keep sha256 event_id now_ms n s

      told : record_notification sha256 event_id now_ms n s ≡ k
      told = unfold record_notification in unfold note_call in rw new (rw c refl)

      stored : Dict.get k.notifications id ≡ some n
      stored = unfold keep in get-put_self s.notifications id n

      stays : remove_notification sha256 event_id now_ms id k ≡ k
      stays = unfold remove_notification in unfold remove_found in rw stored (rw c refl)
