-- ===== src/Terminal/Turns.antt =====
-- TurnTracker of crates/seance-terminal/src/turns.rs: a turn is a submitted command line with the
-- output that follows it. Tracing is left out: it changes no state.
mod Bytes
pub mod History
pub mod Bounds
pub mod Numbering
pub mod Lines
pub mod Output
pub mod Clean
pub mod Tests
use mathlib.Core.Option
use mathlib.Core.List.{get_last?}
use seance.Prelude.{
  ℕ, suc, ◌≤◌, ◌≡◌, Bool, true, false, ◌&&◌, ◌||◌, Option, none, some, List, [], ◌∷◌, ◌++◌, foldl,
  max, ltb, leb, ◌==◌, if◌then◌else◌, is_empty, pop, length, Text, text_len, trim_end,
  saturating_add,
}
use seance.Terminal.BoundedText.{truncation_marker, append_bounded_text}

pub record TerminalTurnSnapshot : Type 0 where
  pub turn_id : ℕ
  pub command_text : Text
  pub output_text : Text
  pub combined_text : Text
  pub start_row : ℕ
  pub end_row : ℕ

pub record TurnRecord : Type 0 where
  pub turn_id : ℕ
  pub command_text : Text
  pub output_text : Text
  pub start_row : ℕ
  pub end_row : ℕ
  pub command_truncated : Bool
  pub output_truncated : Bool

pub snapshot : TurnRecord → TerminalTurnSnapshot
snapshot turn = record {
  turn_id = turn.turn_id;
  command_text = turn.command_text;
  output_text = turn.output_text;
  combined_text =
      if is_empty turn.output_text
      then turn.command_text
      else turn.command_text ++ b'\n' ∷ turn.output_text;
  start_row = turn.start_row;
  end_row = turn.end_row;
}

pub data EscapeState : Type 0 where
  ground escape csi ss3 : EscapeState

pub record TurnTracker : Type 0 where
  -- The front of the queue is the head of the list.
  pub completed_turns : List TurnRecord
  pub active_turn : Option TurnRecord
  pub input_line_buffer : Text
  pub input_escape_state : EscapeState
  pub output_escape_state : EscapeState
  pub latest_cursor_abs_row : ℕ
  pub capture_primary_screen : Bool
  pub next_turn_id : ℕ
  pub max_turns : ℕ
  pub max_bytes_per_turn : ℕ

pub new : ℕ → ℕ → TurnTracker
new max_turns max_bytes_per_turn = record {
  completed_turns = [];
  active_turn = none;
  input_line_buffer = [];
  input_escape_state = ground;
  output_escape_state = ground;
  latest_cursor_abs_row = 0;
  capture_primary_screen = true;
  next_turn_id = 1;
  max_turns = max max_turns 1;
  max_bytes_per_turn = max max_bytes_per_turn (text_len truncation_marker);
}

pub set_primary_screen : TurnTracker → Bool → TurnTracker
set_primary_screen t primary = record t { capture_primary_screen = primary }

pub set_end_row : ℕ → TurnRecord → TurnRecord
set_end_row row turn = record turn { end_row = row }

pub update_cursor_abs_row : TurnTracker → ℕ → TurnTracker
unfolding set_end_row
update_cursor_abs_row t row = record t {
  latest_cursor_abs_row = row;
  active_turn = Option.map (set_end_row row) t.active_turn;
}

-- `String::from_utf8_lossy(&[byte])`: one byte from 0x80 up is no UTF-8.
pub append_lossy_byte : Text → ℕ → Text
append_lossy_byte target byte = target ++ (if ltb byte 0x80 then byte else 0xfffd) ∷ []

pub csi_sequence_complete : ℕ → Bool
csi_sequence_complete byte = leb 0x40 byte && leb byte 0x7e

-- `while completed_turns.len() > max_turns { completed_turns.pop_front() }`
pub enforce_history_limit : ℕ → List TurnRecord → List TurnRecord
enforce_history_limit max_turns [] = []
enforce_history_limit max_turns (turn ∷ turns) =
    let rest = enforce_history_limit max_turns turns in
    if ltb max_turns (length (turn ∷ turns)) then rest else turn ∷ turns

-- `active_turn.take()`, pushed to the back of the completed turns.
pub finalize_active : ℕ → List TurnRecord → Option TurnRecord → List TurnRecord
finalize_active max_turns completed none = completed
finalize_active max_turns completed (some previous) =
    enforce_history_limit max_turns (completed ++ previous ∷ [])

pub new_turn : TurnTracker → Text → TurnRecord
new_turn t command =
    let (text, truncated) = append_bounded_text [] command t.max_bytes_per_turn false in
    record {
      turn_id = t.next_turn_id;
      command_text = text;
      output_text = [];
      start_row = t.latest_cursor_abs_row;
      end_row = t.latest_cursor_abs_row;
      command_truncated = truncated;
      output_truncated = false;
    }

pub submit_command : TurnTracker → TurnTracker
submit_command t =
    let command = trim_end t.input_line_buffer in
    let cleared = record t { input_line_buffer = []; input_escape_state = ground } in
    if is_empty command then cleared else record cleared {
      completed_turns = finalize_active t.max_turns t.completed_turns t.active_turn;
      next_turn_id = saturating_add t.next_turn_id 1;
      active_turn = some (new_turn t command);
    }

pub process_input_ground_byte : TurnTracker → ℕ → TurnTracker
process_input_ground_byte t byte =
    if byte == Bytes.escape
    then record t { input_escape_state = escape }
    else if byte == b'\r' || byte == b'\n'
    then submit_command t
    else if byte == Bytes.backspace || byte == Bytes.delete
    then record t { input_line_buffer = pop t.input_line_buffer }
    else if byte == Bytes.ctrl_u
    then record t { input_line_buffer = [] }
    else if leb 0x20 byte && leb byte 0x7e
    then record t { input_line_buffer = t.input_line_buffer ++ byte ∷ [] }
    else if leb 0x80 byte && leb byte 0xff
    then record t { input_line_buffer = append_lossy_byte t.input_line_buffer byte }
    else t

-- The state behind ESC, for the input and for the output alike.
pub escape_next : ℕ → EscapeState
escape_next byte = if byte == b'[' then csi else if byte == b'O' then ss3 else ground

pub process_input_escape_byte : TurnTracker → ℕ → TurnTracker
unfolding escape_next
process_input_escape_byte t byte = record t { input_escape_state = escape_next byte }

-- The body of the loop of `track_input_bytes`.
pub track_input_byte_in : EscapeState → TurnTracker → ℕ → TurnTracker
track_input_byte_in ground t byte = process_input_ground_byte t byte
track_input_byte_in escape t byte = process_input_escape_byte t byte
track_input_byte_in csi t byte =
    if csi_sequence_complete byte then record t { input_escape_state = ground } else t
track_input_byte_in ss3 t byte = record t { input_escape_state = ground }

pub track_input_byte : TurnTracker → ℕ → TurnTracker
unfolding track_input_byte_in
track_input_byte t byte = track_input_byte_in t.input_escape_state t byte

pub track_input_bytes : TurnTracker → List ℕ → TurnTracker
unfolding track_input_byte
track_input_bytes t bytes = if t.capture_primary_screen then foldl track_input_byte t bytes else t

pub sanitize_ground_byte : Text → ℕ → EscapeState × Text
sanitize_ground_byte sanitized byte =
    if byte == Bytes.escape
    then (escape, sanitized)
    else if byte == b'\r'
    then (ground, sanitized)
    else if byte == b'\n'
    then (ground, sanitized ++ b'\n' ∷ [])
    else if byte == Bytes.backspace || byte == Bytes.delete
    then (ground, pop sanitized)
    else if leb 0x20 byte && leb byte 0x7e
    then (ground, sanitized ++ byte ∷ [])
    else if leb 0x80 byte && leb byte 0xff
    then (ground, append_lossy_byte sanitized byte)
    else (ground, sanitized)

-- The body of the loop of `track_output_bytes`, over `output_escape_state` and `sanitized`.
pub sanitize_byte : EscapeState × Text → ℕ → EscapeState × Text
unfolding sanitize_ground_byte escape_next
sanitize_byte (ground, sanitized) byte = sanitize_ground_byte sanitized byte
sanitize_byte (escape, sanitized) byte = (escape_next byte, sanitized)
sanitize_byte (csi, sanitized) byte =
    (if csi_sequence_complete byte then ground else csi, sanitized)
sanitize_byte (ss3, sanitized) byte = (ground, sanitized)

pub sanitize : EscapeState → List ℕ → EscapeState × Text
unfolding sanitize_byte
sanitize state bytes = foldl sanitize_byte (state, []) bytes

-- The new output of the active turn.
pub append_output : ℕ → TurnRecord → Text → TurnRecord
append_output max_bytes turn sanitized =
    let (text, truncated) =
      append_bounded_text turn.output_text sanitized max_bytes turn.output_truncated in
    record turn { output_text = text; output_truncated = truncated }

pub track_active_output : TurnTracker → TurnRecord → List ℕ → TurnTracker
track_active_output t turn bytes =
    let (state, sanitized) = sanitize t.output_escape_state bytes in
    let seen = record t { output_escape_state = state } in
    if is_empty sanitized
    then seen
    else record seen { active_turn = some (append_output t.max_bytes_per_turn turn sanitized) }

pub track_output_bytes : TurnTracker → List ℕ → TurnTracker
track_output_bytes t bytes =
    if t.capture_primary_screen
    then elim t.active_turn [ none ↦ t | some turn ↦ track_active_output t turn bytes ]
    else t

-- `active_turn.or_else(|| completed_turns.back())`
pub previous_turn : TurnTracker → Option TurnRecord
previous_turn t = elim t.active_turn [ none ↦ get_last? t.completed_turns | some turn ↦ some turn ]

pub previous_turn_snapshot : TurnTracker → Option TerminalTurnSnapshot
unfolding previous_turn snapshot
previous_turn_snapshot t = Option.map snapshot (previous_turn t)

-- A call of the tracker that changes it, and a history of calls.
pub data Event : Type 0 where
  input output : List ℕ → Event
  cursor_row : ℕ → Event
  primary_screen : Bool → Event

pub step : TurnTracker → Event → TurnTracker
step t (input bytes) = track_input_bytes t bytes
step t (output bytes) = track_output_bytes t bytes
step t (cursor_row row) = update_cursor_abs_row t row
step t (primary_screen primary) = set_primary_screen t primary

pub run : TurnTracker → List Event → TurnTracker
unfolding step
run t events = foldl step t events
