-- ===== src/Examples/Histories.antt =====
-- The clipboard and the call history at a few entries.
use linkable.Prelude.{◌≤◌, ◌≡◌, List, [], ◌∷◌, Text, codes, length, arith}
use mathlib.Core.List.{reverse}
use linkable.App.Clipboard.{ClipboardUpdate, empty, clipboard_updates}
use linkable.App.Clipboard.Recent.View.{record_all, remember_all, record_all_refines}
use linkable.App.CallHistory.{CallHistoryEntry, append_call_history}
use linkable.App.CallHistory.Window.{IsHistory, Appended, append_call_history-IsHistory}

abbrev copied : Text → Text → ClipboardUpdate
copied id text = record { update_id = id; source_device_id = codes "f"; text = text }

abbrev updates : List ClipboardUpdate
updates =
    copied (codes "1") (codes "a") ∷ copied [] (codes "b") ∷ copied (codes "1") (codes "c") ∷ []

record_all_refines_example :
    (clipboard_updates (record_all (λ t. t) empty updates)
      ≡ reverse (remember_all (λ t. t) [] updates))
    × (length (remember_all (λ t. t) [] updates) ≤ 30)
record_all_refines_example = record_all_refines (λ t. t) updates

abbrev call : Text → CallHistoryEntry
call caller = record {
  event_id = [];
  timestamp_ms = 0;
  source = codes "Phone";
  caller = caller;
  state = codes "ringing";
  direction = [];
  route = [];
  sim = [];
  detail = [];
  raw = [];
}

abbrev history : List CallHistoryEntry
history = call (codes "a") ∷ []

append_call_history-IsHistory_example :
    IsHistory (λ b. b) (append_call_history (λ b. b) history (call (codes "b"))).1
    × Appended
        (λ b. b)
        (call (codes "b"))
        history
        (append_call_history (λ b. b) history (call (codes "b")))
append_call_history-IsHistory_example =
    append_call_history-IsHistory (λ b. b) history (call (codes "b")) (omega arith, (tt, tt))
