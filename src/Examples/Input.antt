-- ===== src/Examples/Input.antt =====
-- A scroll request at a tool that fails at once.
use linkable.Prelude.{false, [], codes}
use linkable.Prelude.Int.{pos, negsuc}
use linkable.Input.Control.{
  Controller, DesktopInputRequest, DesktopInputActionType, Completed, execute,
}
use linkable.Input.Control.Commands.{Runs, execute-Runs}

abbrev pub tools : Controller
tools = record {
  ydotool = codes "ydotool";
  wpctl = [];
  pactl = codes "pactl";
  lower = λ t. t;
  strip = λ t. t;
  run = λ earlier command. Completed.exited (pos 0) [] [];
}

abbrev pub scrolling : DesktopInputRequest
scrolling = record {
  request_id = codes "r";
  action_type = DesktopInputActionType.pointer_scroll;
  text = [];
  combo = [];
  pointer_dx = pos 0;
  pointer_dy = pos 0;
  pointer_button = pos 0;
  scroll_y = negsuc 39;
  volume_percent = pos 0;
  mic_muted = false;
}

execute-Runs_example : Runs tools 12 [] (execute tools scrolling []).1
execute-Runs_example = execute-Runs tools scrolling []
