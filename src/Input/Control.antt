-- ===== src/Input/Control.antt =====
-- `DesktopInputController` of input/control.py: each request as the tool commands that it runs. The
-- tools are run by the operating system, a parameter that may answer by all that was run before;
-- it raises what `subprocess.run` raises. `str.lower` and `str.strip` are parameters too.
use linkable.Prelude.{
  ℕ, zero, suc, ◌+◌, Bool, true, false, ◌&&◌, Option, none, some, List, [], ◌∷◌, ◌++◌, Text, codes,
  map, if◌then◌else◌, ◌==◌, nat_eq, list_eq, nat_eqb, leb,
}
use Prim.Native.Nat.{min}
use mathlib.Core.List.{reverse}
use linkable.Prelude.Int.{ℤ, pos, negsuc, pos_part, neg_part}
use linkable.Prelude.Decimal.{int_text, to_text}
use linkable.Prelude.Dict.{Dict}
use linkable.Prelude.Dict
use linkable.Prelude.Exec.{
  Exception, os_error, timeout_error, file_not_found_error, Result, ok, err, Exec, ◌>>=◌, ◌>>◌,
  pure,
}
pub mod Commands

-- input_pb2.DesktopInputActionType
pub data DesktopInputActionType : Type 0 where
  type_text key_combo pointer_move pointer_click pointer_scroll : DesktopInputActionType
  volume_set mic_mute_set : DesktopInputActionType
  other_action : ℕ → DesktopInputActionType

pub record DesktopInputRequest : Type 0 where
  pub request_id : Text
  pub action_type : DesktopInputActionType
  pub text : Text
  pub combo : List Text
  pub pointer_dx : ℤ
  pub pointer_dy : ℤ
  pub pointer_button : ℤ
  pub scroll_y : ℤ
  pub volume_percent : ℤ
  pub mic_muted : Bool

pub record InputCommandResult : Type 0 where
  pub success : Bool
  pub detail : Text

pub record DesktopInputResult : Type 0 where
  pub request_id : Text
  pub success : Bool
  pub detail : Text

-- How a run of a tool ends.
pub data Completed : Type 0 where
  raised : Exception → Text → Completed
  exited : ℤ → (stdout stderr : Text) → Completed

-- The paths of the tools, empty for one that is missing, and what the controller calls.
pub record Controller : Type 0 where
  pub ydotool : Text
  pub wpctl : Text
  pub pactl : Text
  pub lower : Text → Text
  pub strip : Text → Text
  pub run : (earlier : List (List Text)) (command : List Text) → Completed

-- The commands that were run, the first one first.
abbrev pub Log : Type 0
Log = List (List Text)

abbrev refuse : Text → Exec Log InputCommandResult
refuse detail = pure (record { success = false; detail = detail })

abbrev is_caught : Exception → Bool
is_caught os_error = true
is_caught timeout_error = true
is_caught file_not_found_error = true
is_caught _ = false

-- `a or b` of texts
abbrev or_text : Text → Text → Text
or_text [] b = b
or_text (c ∷ a) b = c ∷ a

-- Two texts by a line break between them, without the empty ones.
join_lines : Text → Text → Text
join_lines [] b = b
join_lines (c ∷ a) [] = c ∷ a
join_lines (c ∷ a) (d ∷ b) = (c ∷ a) ++ 10 ∷ d ∷ b

is_zero : ℤ → Bool
is_zero (pos zero) = true
is_zero _ = false

-- What `_run` makes of the end of a run.
outcome : (Text → Text) → Completed → Result InputCommandResult
unfolding join_lines is_zero
outcome strip (raised x text) =
    if is_caught x then ok (record { success = false; detail = text }) else err x
outcome strip (exited code stdout stderr) =
    let output = join_lines (strip stdout) (strip stderr) in
    if is_zero code
    then ok (record { success = true; detail = or_text output (codes "ok") })
    else ok (record { success = false; detail = or_text output (codes "exit=" ++ int_text code) })

abbrev ydo_key_aliases : Dict Text Text
ydo_key_aliases =
    (codes "ctrl", codes "29")
    ∷ (codes "control", codes "29")
    ∷ (codes "alt", codes "56")
    ∷ (codes "shift", codes "42")
    ∷ (codes "super", codes "125")
    ∷ (codes "meta", codes "125")
    ∷ (codes "enter", codes "28")
    ∷ (codes "return", codes "28")
    ∷ (codes "esc", codes "1")
    ∷ (codes "escape", codes "1")
    ∷ (codes "tab", codes "15")
    ∷ (codes "space", codes "57")
    ∷ (codes "backspace", codes "14")
    ∷ (codes "delete", codes "111")
    ∷ (codes "up", codes "103")
    ∷ (codes "down", codes "108")
    ∷ (codes "left", codes "105")
    ∷ (codes "right", codes "106")
    ∷ []

-- `{1: "0xC0", 2: "0xC1", 3: "0xC2"}.get(button, "0xC0")`
button_code : ℤ → Text
button_code (pos (suc (suc zero))) = codes "0xC1"
button_code (pos (suc (suc (suc zero)))) = codes "0xC2"
button_code _ = codes "0xC0"

-- `button or 1`
or_one : ℤ → ℤ
or_one (pos zero) = pos 1
or_one z = z

-- max(0, min(150, percent))
clamped : ℤ → ℕ
clamped percent = min 150 (pos_part percent)

pub percent_text : ℕ → Text
percent_text n = to_text n ++ codes "%"

module _ (c : Controller) where
  run_command : List Text → Exec Log InputCommandResult
  unfolding outcome
  run_command command log = (outcome c.strip (c.run log command), log ++ command ∷ [])

  send_text : Text → Exec Log InputCommandResult
  unfolding run_command
  send_text text =
      if text == []
      then refuse (codes "text is empty")
      else if c.ydotool == []
      then refuse (codes "ydotool is required for keyboard text input")
      else run_command (c.ydotool ∷ codes "type" ∷ codes "--" ∷ text ∷ [])

  -- _YDO_KEY_ALIASES.get(key.lower(), key)
  mapped_key : Text → Text
  mapped_key key = elim (Dict.get ydo_key_aliases (c.lower key)) [ none ↦ key | some code ↦ code ]

  -- Each key down in order, then each up in the reverse one.
  pub key_events : List Text → List Text
  unfolding mapped_key
  key_events combo =
      let mapped = map mapped_key combo in
      map (λ key. key ++ codes ":1") mapped ++ map (λ key. key ++ codes ":0") (reverse mapped)

  press_keys : List Text → Exec Log InputCommandResult
  unfolding run_command key_events
  press_keys combo =
      if combo == []
      then refuse (codes "key combo is empty")
      else if c.ydotool == []
      then refuse (codes "ydotool is required for key combos")
      else run_command (c.ydotool ∷ codes "key" ∷ key_events combo)

  mousemove : ℤ → ℤ → Exec Log InputCommandResult
  unfolding run_command
  mousemove dx dy =
      if c.ydotool == []
      then refuse (codes "ydotool is required for pointer movement")
      else run_command (c.ydotool ∷ codes "mousemove" ∷ codes "--" ∷ int_text dx ∷ int_text dy ∷ [])

  click : ℤ → Exec Log InputCommandResult
  unfolding run_command button_code
  click button =
      if c.ydotool == []
      then refuse (codes "ydotool is required for pointer clicks")
      else run_command (c.ydotool ∷ codes "click" ∷ button_code button ∷ [])

  -- The `for` loop of `_scroll`, from the steps that are left.
  scroll_steps : ℕ → (button delta : Text) → Exec Log InputCommandResult
  unfolding run_command
  scroll_steps zero button delta =
      pure (record { success = true; detail = codes "scroll sent: " ++ delta })
  scroll_steps (suc steps) button delta = do
    result ← run_command (c.ydotool ∷ codes "click" ∷ button ∷ [])
    (if result.success then scroll_steps steps button delta else pure result)

  scroll : ℤ → Exec Log InputCommandResult
  unfolding scroll_steps is_zero
  scroll delta_y =
      if c.ydotool == []
      then refuse (codes "ydotool is required for pointer scrolling")
      else if is_zero delta_y
      then refuse (codes "scroll delta is zero")
      else scroll_steps (min (pos_part delta_y + neg_part delta_y) 12)
          (if leb 1 (pos_part delta_y) then codes "0xC4" else codes "0xC5") (int_text delta_y)

  set_volume : ℤ → Exec Log InputCommandResult
  unfolding run_command clamped percent_text
  set_volume percent =
      if c.wpctl == []
      then if c.pactl == []
        then refuse (codes "wpctl or pactl is required for speaker volume control")
        else run_command (
            c.pactl
            ∷ codes "set-sink-volume"
            ∷ codes "@DEFAULT_SINK@"
            ∷ percent_text (clamped percent)
            ∷ [])
      else run_command (
          c.wpctl
          ∷ codes "set-volume"
          ∷ codes "@DEFAULT_AUDIO_SINK@"
          ∷ percent_text (clamped percent)
          ∷ [])

  set_mic_muted : Bool → Exec Log InputCommandResult
  unfolding run_command
  set_mic_muted muted =
      let flag = if muted then codes "1" else codes "0" in
      if c.wpctl == []
      then if c.pactl == []
        then refuse (codes "wpctl or pactl is required for microphone mute control")
        else run_command (c.pactl ∷ codes "set-source-mute" ∷ codes "@DEFAULT_SOURCE@" ∷ flag ∷ [])
      else run_command (c.wpctl ∷ codes "set-mute" ∷ codes "@DEFAULT_AUDIO_SOURCE@" ∷ flag ∷ [])

  act : DesktopInputRequest → DesktopInputActionType → Exec Log InputCommandResult
  unfolding send_text press_keys mousemove click or_one scroll set_volume set_mic_muted
  act r type_text = send_text r.text
  act r key_combo = press_keys r.combo
  act r pointer_move = mousemove r.pointer_dx r.pointer_dy
  act r pointer_click = click (or_one r.pointer_button)
  act r pointer_scroll = scroll r.scroll_y
  act r volume_set = set_volume r.volume_percent
  act r mic_mute_set = set_mic_muted r.mic_muted
  act r (other_action n) = refuse (codes "unsupported desktop input action: " ++ to_text n)

  unfoldable pub execute : DesktopInputRequest → Exec Log InputCommandResult
  unfolding act
  execute r = act r r.action_type

  -- `handle`, without the time in the result.
  unfoldable pub handle : DesktopInputRequest → Exec Log DesktopInputResult
  unfolding execute
  handle r = do
    result ← execute r
    pure (record { request_id = r.request_id; success = result.success; detail = result.detail })
