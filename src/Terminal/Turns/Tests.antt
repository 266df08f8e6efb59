-- ===== src/Terminal/Turns/Tests.antt =====
-- Runs of TurnTracker, of crates/seance-terminal/src/turns.rs, and the theorems at inputs.
use seance.Prelude.{
  ◌≡◌, refl, true, false, some, none, List, [], ◌∷◌, ◌++◌, max, drop, arith, codes, text_len,
  len_utf8, trim_end, is_whitespace, saturating_add,
}
use seance.Terminal.BoundedText.{append_bounded_text}
use seance.Terminal.Turns.Bytes
use seance.Terminal.Turns.{
  TurnRecord, TurnTracker, EscapeState, Event, input, output, cursor_row, new, submit_command,
  new_turn, process_input_ground_byte, track_input_bytes, track_output_bytes, track_active_output,
  append_output, sanitize, update_cursor_abs_row, run, csi_sequence_complete, previous_turn,
  previous_turn_snapshot, finalize_active,
}
use seance.Terminal.Turns.History.{submit_command_history}
use seance.Terminal.Turns.Bounds.{IsBounded, run-new-IsBounded}
use seance.Terminal.Turns.Numbering.{IsNumbered, run-new-IsNumbered}
use seance.Terminal.Turns.Lines.{IsReading, typed, track_input_bytes-typed, entered_line}
use seance.Terminal.Turns.Output.{
  IsCopying, with_output, sanitize-control_sequence, track_output_bytes-backspace,
}
use seance.Terminal.Turns.Clean.{IsCleanTracker, run-new-clean}

abbrev session : List Event
session =
    cursor_row 12
    ∷ input (codes "echo hi" ++ b'\r' ∷ [])
    ∷ output (codes "hello" ++ b'\n' ∷ [])
    ∷ cursor_row 14
    ∷ []

-- The test `tracks_submitted_command_and_output_bytes` of the source.
tracks_command :
    previous_turn_snapshot (run (new 32 1024) session)
    ≡ some (record {
      turn_id = 1;
      command_text = codes "echo hi";
      output_text = codes "hello" ++ b'\n' ∷ [];
      combined_text = codes "echo hi" ++ b'\n' ∷ codes "hello" ++ b'\n' ∷ [];
      start_row = 12;
      end_row = 14;
    })
unfolding previous_turn_snapshot run track_input_bytes process_input_ground_byte submit_command
    new_turn finalize_active trim_end is_whitespace append_bounded_text text_len len_utf8
    track_output_bytes track_active_output append_output sanitize update_cursor_abs_row
    saturating_add new
tracks_command = refl

abbrev fresh : TurnTracker
fresh = record {
  completed_turns = [];
  active_turn = none;
  input_line_buffer = [];
  input_escape_state = EscapeState.ground;
  output_escape_state = EscapeState.ground;
  latest_cursor_abs_row = 3;
  capture_primary_screen = true;
  next_turn_id = 2;
  max_turns = 1;
  max_bytes_per_turn = 64;
}

abbrev first_turn : TurnRecord
first_turn = record {
  turn_id = 1;
  command_text = codes "ls";
  output_text = codes "a";
  start_row = 1;
  end_row = 2;
  command_truncated = false;
  output_truncated = false;
}

abbrev busy : TurnTracker
busy = record fresh {
  completed_turns = first_turn ∷ [];
  active_turn = some first_turn;
  input_line_buffer = codes "pwd ";
}

fresh-IsReading : IsReading fresh
fresh-IsReading = record { captures = refl; at_ground = refl }

busy-IsCopying : IsCopying busy first_turn
unfolding text_len len_utf8
busy-IsCopying = record {
  captures = refl;
  at_ground = refl;
  active = refl;
  whole = refl;
  within = omega arith;
}

submit_command_history_example :
    let s = submit_command busy in
    (s.completed_turns ≡ drop 1 (first_turn ∷ first_turn ∷ []))
    × (s.input_line_buffer ≡ [])
    × ((turn : TurnRecord) × (s.active_turn ≡ some turn)
        × (turn.turn_id ≡ 2)
        × (turn.output_text ≡ [])
        × (turn.start_row ≡ 3)
        × (turn.end_row ≡ 3))
unfolding trim_end is_whitespace
submit_command_history_example = submit_command_history busy refl (omega arith)

run-new-IsBounded_example : IsBounded (max 1 1) (max 16 15) (run (new 1 16) session)
run-new-IsBounded_example = run-new-IsBounded 1 16 session

run-new-IsNumbered_example : IsNumbered (run (new 32 1024) session)
unfolding run track_input_bytes process_input_ground_byte submit_command new_turn finalize_active
    trim_end is_whitespace append_bounded_text text_len len_utf8 track_output_bytes
    track_active_output append_output sanitize update_cursor_abs_row saturating_add new
run-new-IsNumbered_example = run-new-IsNumbered 32 1024 session (omega arith)

run-new-clean_example : IsCleanTracker (run (new 1 16) session)
run-new-clean_example = run-new-clean 1 16 session

track_input_bytes-typed_example :
    track_input_bytes fresh (b'a' ∷ 0xc3 ∷ 0xa9 ∷ []) ≡ typed fresh (b'a' ∷ 0xfffd ∷ 0xfffd ∷ [])
track_input_bytes-typed_example =
    track_input_bytes-typed fresh (b'a' ∷ 0xc3 ∷ 0xa9 ∷ []) fresh-IsReading (omega arith)

entered_line_example :
    let s = track_input_bytes fresh (codes "ls " ++ b'\r' ∷ []) in
    (s.input_line_buffer ≡ [])
    × ((turn : TurnRecord) × (previous_turn s ≡ some turn)
        × (turn.command_text ≡ trim_end (codes "ls "))
        × (turn.command_truncated ≡ false)
        × (turn.output_text ≡ [])
        × (turn.turn_id ≡ 2))
unfolding trim_end is_whitespace text_len len_utf8
entered_line_example =
    entered_line fresh (codes "ls ") fresh-IsReading refl (omega arith) refl (omega arith)

sanitize-control_sequence_example :
    sanitize EscapeState.ground
      (codes "a" ++ (Bytes.escape ∷ b'[' ∷ (b'3' ∷ b'1' ∷ []) ++ b'm' ∷ []) ++ codes "b")
    ≡ sanitize EscapeState.ground (codes "a" ++ codes "b")
unfolding csi_sequence_complete
sanitize-control_sequence_example =
    sanitize-control_sequence (codes "a") (b'3' ∷ b'1' ∷ []) (codes "b") b'm' (omega arith)
      (refl, (refl, tt)) refl

track_output_bytes-backspace_example :
    (track_output_bytes busy (b'x' ∷ Bytes.backspace ∷ []) ≡ busy)
    × (track_output_bytes (track_output_bytes busy (b'x' ∷ [])) (Bytes.backspace ∷ [])
        ≡ with_output busy first_turn (b'x' ∷ []))
unfolding text_len len_utf8
track_output_bytes-backspace_example =
    track_output_bytes-backspace busy first_turn b'x' busy-IsCopying (omega arith) (omega arith)
