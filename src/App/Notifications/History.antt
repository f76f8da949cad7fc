-- ===== src/App/Notifications/History.antt =====
-- What the runtime keeps of the phone's notifications.
use linkable.Prelude.{
  ℕ, ◌≤◌, ◌≡◌, refl, sym, ap, subst, ◌∙◌, Bool, true, false, Option, none, some, [], ◌∷◌, Text,
  Bytes, ◌==◌, ==_refl, nat_eq, list_eq, leb, leb→le, length, length-take, arith, Bool-cases, inl,
  inr,
}
use linkable.Prelude.Dict.{Dict, get-put, get-put_self, get-remove}
use linkable.Prelude.Dict
use linkable.App.Notifications.{
  Notification, Notifications, set_call, call_actions, record_app_call_actions,
  clear_app_call_if_current, sort_recent, trim_notification_history, notification_fingerprint,
  log_call, note_call, keep, is_known, record_notification, remove_call, remove_found,
  remove_notification,
}

trim_notification_history-bounded :
    (h : Dict Text Notification) → length (trim_notification_history h) ≤ 200
unfolding trim_notification_history
trim_notification_history-bounded h = elim (Bool-cases (leb (length h) 200)) [
  | inl short ↦ rw short (leb→le (length h) 200 short)
  | inr long ↦ rw long (omega (arith, length-take 200 (sort_recent h)))
]

-- The parts of the state that the calls of apps do not touch.
abbrev Same : Notifications → Notifications → Type 0
Same s t =
    (t.notifications ≡ s.notifications)
    × (t.fingerprints ≡ s.fingerprints)
    × (t.history ≡ s.history)

set_call-Same : (n : Notification) (d : Dict ℕ Text) (s : Notifications) → Same s (set_call n d s)
unfolding set_call
set_call-Same n [] s = (refl, refl, refl)
set_call-Same n (a ∷ d) s = (refl, refl, refl)

clear-Same : (id : Text) (s : Notifications) → Same s (clear_app_call_if_current id s)
unfolding clear_app_call_if_current
clear-Same id s = elim (Bool-cases (id == s.latest_id)) [
  | inl h ↦ rw h (refl, refl, refl)
  | inr h ↦ rw h (refl, refl, refl)
]

module _ (sha256 : Bytes → Text) (event_id : Text → Text) (now_ms : ℕ) where
  note_call-Same :
      (b : Bool) (n : Notification) (s : Notifications)
      → Same s (note_call sha256 event_id now_ms b n s)
  unfolding note_call log_call record_app_call_actions
  note_call-Same true n s = set_call-Same n (call_actions [] n.actions) s
  note_call-Same false n s = (refl, refl, refl)

  abbrev pub print : Notification → Text
  print n = notification_fingerprint sha256 event_id now_ms n

  -- Each kept fingerprint is that of the notification that is shown under its identifier, and the
  -- history has at most 200 notifications.
  pub record Kept (s : Notifications) : Type 0 where
    pub short : length s.history ≤ 200
    pub printed :
        (id f : Text)
        → Dict.get s.fingerprints id ≡ some f
        → (n : Notification) × (Dict.get s.notifications id ≡ some n) × (print n ≡ f)

  some_injective : {A : Type 0} {a b : A} → Option.some a ≡ some b → a ≡ b
  some_injective h = cc

  -- What holds under an identifier after an assignment to another one, or to it.
  put-printed :
      (s : Notifications) (n : Notification) (key : Text)
      → Kept s
      → (id f : Text) → Dict.get (Dict.put s.fingerprints key (print n)) id ≡ some f
      → (m : Notification) × (Dict.get (Dict.put s.notifications key n) id ≡ some m) × (print m ≡ f)
  put-printed s n key kept id f h = elim (Bool-cases (key == id)) [
    | inl same ↦ (
      n,
      get-put s.notifications key id n ∙ rw same refl,
      some_injective (sym (get-put s.fingerprints key id (print n) ∙ rw same refl) ∙ h),
    )
    | inr other ↦
        let (m, e, p) =
          kept.printed id f (sym (get-put s.fingerprints key id (print n) ∙ rw other refl) ∙ h) in
        (m, get-put s.notifications key id n ∙ rw other e, p)
  ]

  remove-printed :
      (s : Notifications) (key : Text)
      → Kept s
      → (id f : Text) → Dict.get (Dict.remove s.fingerprints key) id ≡ some f
      → (m : Notification) × (Dict.get (Dict.remove s.notifications key) id ≡ some m)
        × (print m ≡ f)
  remove-printed s key kept id f h = elim (Bool-cases (key == id)) [
    | inl same ↦ absurd (none_some (sym (get-remove s.fingerprints key id ∙ rw same refl) ∙ h))
    | inr other ↦
        let (m, e, p) =
          kept.printed id f (sym (get-remove s.fingerprints key id ∙ rw other refl) ∙ h) in
        (m, get-remove s.notifications key id ∙ rw other e, p)
  ]
    where
      none_some : {A : Type 0} {a : A} → Option.none ≡ some a → ⊥
      none_some e = cc

  Same-Kept : (s t : Notifications) → Same s t → Kept s → Kept t
  Same-Kept s t (n, f, h) kept = record {
    short = rw h kept.short;
    printed = λ id g e.
        let (m, x, p) = kept.printed id g (sym (ap (λ d. Dict.get d id) f) ∙ e) in
        (m, ap (λ d. Dict.get d id) n ∙ x, p);
  }

  keep-Kept :
      (n : Notification) (s : Notifications) → Kept s → Kept (keep sha256 event_id now_ms n s)
  unfolding keep
  keep-Kept n s kept = record {
    short = trim_notification_history-bounded (Dict.put s.history n.call.notification_id n);
    printed = put-printed s n n.call.notification_id kept;
  }

  -- Whether the notification is known as it is.
  abbrev known : Notification → Notifications → Bool
  known n s =
      is_known sha256 event_id now_ms (print n) (Dict.get s.fingerprints n.call.notification_id)

  record_known :
      (n : Notification) (s : Notifications)
      → known n s ≡ true
      → record_notification sha256 event_id now_ms n s ≡ s
  unfolding record_notification
  record_known n s h = rw h refl

  record_new :
      (n : Notification) (s : Notifications)
      → known n s ≡ false
      → record_notification sha256 event_id now_ms n s
        ≡ note_call sha256 event_id now_ms n.call_like n (keep sha256 event_id now_ms n s)
  unfolding record_notification
  record_new n s h = rw h refl

  known-keep :
      (n : Notification) (s : Notifications)
      → known n (note_call sha256 event_id now_ms n.call_like n (keep sha256 event_id now_ms n s))
        ≡ true
  unfolding is_known
  known-keep n s =
      ap (is_known sha256 event_id now_ms (print n))
        (ap (λ d. Dict.get d n.call.notification_id) same.1 ∙ stored)
      ∙ ==_refl (print n)
    where
      k : Notifications
      k = keep sha256 event_id now_ms n s

      same : Same k (note_call sha256 event_id now_ms n.call_like n k)
      same = note_call-Same n.call_like n k

      stored : Dict.get k.fingerprints n.call.notification_id ≡ some (print n)
      stored = unfold keep in get-put_self s.fingerprints n.call.notification_id (print n)

  -- Recording a notification keeps the state in order: the history has at most 200 notifications,
  -- and each kept fingerprint is that of the notification that is shown under its identifier.
  -- Recording it again at once changes nothing.
  pub record_notification-Kept :
      (n : Notification) (s : Notifications)
      → Kept s
      → let t = record_notification sha256 event_id now_ms n s in
        Kept t × (record_notification sha256 event_id now_ms n t ≡ t)
  record_notification-Kept n s kept = elim (Bool-cases (known n s)) [
    | inl old ↦
        subst (λ t. Kept t × (record_notification sha256 event_id now_ms n t ≡ t))
          (sym (record_known n s old)) (kept, record_known n s old)
    | inr new ↦
        subst (λ t. Kept t × (record_notification sha256 event_id now_ms n t ≡ t))
          (sym (record_new n s new))
          (
            Same-Kept k _ (note_call-Same n.call_like n k) (keep-Kept n s kept),
            record_known n _ (known-keep n s),
          )
  ]
    where
      k : Notifications
      k = keep sha256 event_id now_ms n s

  remove_call-Kept :
      (id : Text) (n : Notification) (s : Notifications)
      → Kept s
      → Kept (remove_call sha256 event_id now_ms id n s)
  unfolding remove_call log_call
  remove_call-Kept id n s kept =
      let r : Notifications = record s {
        notifications = Dict.remove s.notifications id;
        fingerprints = Dict.remove s.fingerprints id;
      } in
      Same-Kept r _ (clear-Same id r)
        (record { short = kept.short; printed = remove-printed s id kept })

  remove_found-Kept :
      (id : Text) (o : Option Notification) (s : Notifications)
      → Kept s
      → Kept (remove_found sha256 event_id now_ms id o s)
  unfolding remove_found
  remove_found-Kept id none s kept = kept
  remove_found-Kept id (some n) s kept = elim (Bool-cases (n.call_like)) [
    | inl h ↦ rw h (remove_call-Kept id n s kept)
    | inr h ↦ rw h kept
  ]

  -- The removal of a notification keeps the state in order.
  pub remove_notification-Kept :
      (id : Text) (s : Notifications)
      → Kept s
      → Kept (remove_notification sha256 event_id now_ms id s)
  unfolding remove_notification
  remove_notification-Kept id s kept = remove_found-Kept id (Dict.get s.notifications id) s kept
