-- ===== src/Input/Control/Commands.antt =====
-- Which commands a phone's request runs.
use linkable.Prelude.{
  ℕ, zero, suc, ◌+◌, ◌≤◌, ◌≡◌, refl, sym, ◌∙◌, Bool, true, false, List, [], ◌∷◌, ◌++◌, Text, codes,
  ◌==◌, nat_eq, list_eq, length, arith, Bool-cases, inl, inr, All, append_assoc, append-nil,
  if◌then◌else◌,
}
use Prim.Native.Nat.{min}
use linkable.Prelude.Int.{ℤ, pos_part, neg_part}
use linkable.Prelude.Decimal.{int_text}
use linkable.Prelude.Exec.{Exec, Result, ok, err, pure, bind_result}
use linkable.Input.Control.{
  DesktopInputRequest, DesktopInputActionType, Controller, InputCommandResult, Log, refuse,
  run_command, send_text, press_keys, key_events, mousemove, click, or_one, button_code,
  scroll_steps, scroll, clamped, percent_text, set_volume, set_mic_muted, act, execute, outcome,
  is_zero,
}

module _ (c : Controller) where
  -- The commands that are allowed to run, each with a tool that is there.
  pub data IsCommand : List Text → Type 0 where
    types :
        (text : Text)
        → (c.ydotool == []) ≡ false
        → IsCommand (c.ydotool ∷ codes "type" ∷ codes "--" ∷ text ∷ [])
    keys :
        (combo : List Text)
        → (c.ydotool == []) ≡ false
        → IsCommand (c.ydotool ∷ codes "key" ∷ key_events c combo)
    moves :
        (dx dy : ℤ)
        → (c.ydotool == []) ≡ false
        → IsCommand (c.ydotool ∷ codes "mousemove" ∷ codes "--" ∷ int_text dx ∷ int_text dy ∷ [])
    clicks :
        (button : Text)
        → (c.ydotool == []) ≡ false
        → IsCommand (c.ydotool ∷ codes "click" ∷ button ∷ [])
    wpctl_volume :
        (n : ℕ)
        → (c.wpctl == []) ≡ false
        → n ≤ 150
        → IsCommand
            (c.wpctl ∷ codes "set-volume" ∷ codes "@DEFAULT_AUDIO_SINK@" ∷ percent_text n ∷ [])
    pactl_volume :
        (n : ℕ)
        → (c.pactl == []) ≡ false
        → n ≤ 150
        → IsCommand
            (c.pactl ∷ codes "set-sink-volume" ∷ codes "@DEFAULT_SINK@" ∷ percent_text n ∷ [])
    wpctl_mute :
        (flag : Text)
        → (c.wpctl == []) ≡ false
        → IsCommand (c.wpctl ∷ codes "set-mute" ∷ codes "@DEFAULT_AUDIO_SOURCE@" ∷ flag ∷ [])
    pactl_mute :
        (flag : Text)
        → (c.pactl == []) ≡ false
        → IsCommand (c.pactl ∷ codes "set-source-mute" ∷ codes "@DEFAULT_SOURCE@" ∷ flag ∷ [])

  -- At most n commands more, each allowed.
  abbrev pub Runs : ℕ → Log → Log → Type 0
  Runs n log log' =
      (new : List (List Text)) × (log' ≡ log ++ new) × (length new ≤ n) × All IsCommand new

  none_more : (n : ℕ) (log : Log) → Runs n log log
  none_more n log = ([], sym (append-nil log), omega arith, tt)

  run_command-Runs :
      (command : List Text) (log : Log)
      → IsCommand command
      → Runs 12 log (run_command c command log).1
  unfolding run_command
  run_command-Runs command log h = (command ∷ [], refl, omega arith, (h, tt))

  if-Runs :
      (b : Bool) (m n : Exec Log InputCommandResult) (log : Log)
      → (b ≡ true → Runs 12 log (m log).1)
      → (b ≡ false → Runs 12 log (n log).1)
      → Runs 12 log ((if b then m else n) log).1
  if-Runs true m n log h k = h refl
  if-Runs false m n log h k = k refl

  -- A tool that is not there is not run.
  with_tool :
      (tool detail : Text) (m : Exec Log InputCommandResult) (log : Log)
      → ((tool == []) ≡ false → Runs 12 log (m log).1)
      → Runs 12 log ((if tool == [] then refuse detail else m) log).1
  with_tool tool detail m log h =
      if-Runs (tool == []) (refuse detail) m log (λ _. none_more 12 log) h

  send_text-Runs : (text : Text) (log : Log) → Runs 12 log (send_text c text log).1
  unfolding send_text
  send_text-Runs text log =
      if-Runs (text == []) _ _ log (λ _. none_more 12 log)
        λ _. with_tool c.ydotool _ _ log λ there. run_command-Runs _ log (types text there)

  press_keys-Runs : (combo : List Text) (log : Log) → Runs 12 log (press_keys c combo log).1
  unfolding press_keys
  press_keys-Runs combo log =
      if-Runs (combo == []) _ _ log (λ _. none_more 12 log)
        λ _. with_tool c.ydotool _ _ log λ there. run_command-Runs _ log (keys combo there)

  mousemove-Runs : (dx dy : ℤ) (log : Log) → Runs 12 log (mousemove c dx dy log).1
  unfolding mousemove
  mousemove-Runs dx dy log =
      with_tool c.ydotool _ _ log λ there. run_command-Runs _ log (moves dx dy there)

  click-Runs : (button : ℤ) (log : Log) → Runs 12 log (click c button log).1
  unfolding click
  click-Runs button log =
      with_tool c.ydotool _ _ log
        λ there. run_command-Runs _ log (clicks (button_code button) there)

  more-Runs :
      (n : ℕ) (command : List Text) (log log' : Log)
      → IsCommand command
      → Runs n (log ++ command ∷ []) log'
      → Runs (suc n) log log'
  more-Runs n command log log' h (new, e, short, ok_all) =
      (command ∷ new, e ∙ append_assoc log (command ∷ []) new, omega arith, (h, ok_all))

  -- A step of the loop goes on only after a success.
  abbrev continue : ℕ → (button delta : Text) → InputCommandResult → Exec Log InputCommandResult
  continue steps button delta result =
      if result.success then scroll_steps c steps button delta else pure result

  continue-Runs :
      (steps : ℕ) (button delta : Text) (log : Log)
      → Runs steps log (scroll_steps c steps button delta log).1
      → (r : Result InputCommandResult)
      → Runs steps log (bind_result (continue steps button delta) (r, log)).1
  continue-Runs steps button delta log h (err x) = none_more steps log
  continue-Runs steps button delta log h (ok r) = elim (Bool-cases (r.success)) [
    | inl went ↦ rw went h
    | inr failed ↦ rw failed (none_more steps log)
  ]

  scroll_steps-Runs :
      (steps : ℕ) (button delta : Text) (log : Log)
      → (c.ydotool == []) ≡ false
      → Runs steps log (scroll_steps c steps button delta log).1
  unfolding scroll_steps run_command
  scroll_steps-Runs zero button delta log there = none_more 0 log
  scroll_steps-Runs (suc steps) button delta log there =
      more-Runs steps command log _ (clicks button there) (
        continue-Runs steps button delta (log ++ command ∷ [])
          (scroll_steps-Runs steps button delta (log ++ command ∷ []) there)
          (outcome c.strip (c.run log command)))
    where
      command : List Text
      command = c.ydotool ∷ codes "click" ∷ button ∷ []

  weaken : (m n : ℕ) (log log' : Log) → m ≤ n → Runs m log log' → Runs n log log'
  weaken m n log log' h (new, e, short, ok_all) = (new, e, omega arith, ok_all)

  scroll-Runs : (delta_y : ℤ) (log : Log) → Runs 12 log (scroll c delta_y log).1
  unfolding scroll
  scroll-Runs delta_y log = with_tool c.ydotool _ _ log λ there.
      if-Runs (is_zero delta_y) _ _ log (λ _. none_more 12 log)
        λ _.
          weaken (min (pos_part delta_y + neg_part delta_y) 12) 12 log _ (omega arith)
            (scroll_steps-Runs (min (pos_part delta_y + neg_part delta_y) 12) _ _ log there)

  clamped-small : (z : ℤ) → clamped z ≤ 150
  unfolding clamped
  clamped-small z = omega arith

  set_volume-Runs : (percent : ℤ) (log : Log) → Runs 12 log (set_volume c percent log).1
  unfolding set_volume
  set_volume-Runs percent log =
      if-Runs (c.wpctl == []) _ _ log
        (λ _. with_tool c.pactl _ _ log λ there.
          run_command-Runs _ log (pactl_volume (clamped percent) there (clamped-small percent)))
        (λ there.
          run_command-Runs _ log (wpctl_volume (clamped percent) there (clamped-small percent)))

  set_mic_muted-Runs : (muted : Bool) (log : Log) → Runs 12 log (set_mic_muted c muted log).1
  unfolding set_mic_muted
  set_mic_muted-Runs muted log =
      if-Runs (c.wpctl == []) _ _ log
        (λ _. with_tool c.pactl _ _ log λ there. run_command-Runs _ log (pactl_mute _ there))
        (λ there. run_command-Runs _ log (wpctl_mute _ there))

  act-Runs :
      (r : DesktopInputRequest) (action : DesktopInputActionType) (log : Log)
      → Runs 12 log (act c r action log).1
  unfolding act
  act-Runs r DesktopInputActionType.type_text log = send_text-Runs r.text log
  act-Runs r DesktopInputActionType.key_combo log = press_keys-Runs r.combo log
  act-Runs r DesktopInputActionType.pointer_move log = mousemove-Runs r.pointer_dx r.pointer_dy log
  act-Runs r DesktopInputActionType.pointer_click log = click-Runs (or_one r.pointer_button) log
  act-Runs r DesktopInputActionType.pointer_scroll log = scroll-Runs r.scroll_y log
  act-Runs r DesktopInputActionType.volume_set log = set_volume-Runs r.volume_percent log
  act-Runs r DesktopInputActionType.mic_mute_set log = set_mic_muted-Runs r.mic_muted log
  act-Runs r (DesktopInputActionType.other_action n) log = none_more 12 log

  -- A request runs at most twelve commands after those that were run before, whatever the tools
  -- answer; each is one of the fixed forms and begins with the path of a tool that is there, and a
  -- volume is at most 150 percent.
  pub execute-Runs : (r : DesktopInputRequest) (log : Log) → Runs 12 log (execute c r log).1
  unfolding execute
  execute-Runs r log = act-Runs r r.action_type log
