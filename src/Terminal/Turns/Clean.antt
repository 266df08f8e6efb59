-- ===== src/Terminal/Turns/Clean.antt =====
-- Control characters in the texts of TurnTracker, crates/seance-terminal/src/turns.rs.
use seance.Prelude.{
  ℕ, ◌≤◌, ◌≡◌, ◌≢◌, ◌⊎◌, List, [], ◌∷◌, Option, none, some, arith, foldl, false, Option-cases, inl,
  inr, Text, All, All-append, All-pop, trim_end,
}
use seance.Terminal.BoundedText.{truncation_marker}
use seance.Terminal.BoundedText.Contents.{All-append_bounded_text}
use seance.Terminal.Turns.Bytes
use seance.Terminal.Turns.History.{active_list, enforce_history_limit-drop, All-drop}
use seance.Terminal.Turns.{
  TurnRecord, TurnTracker, EscapeState, Event, input, output, cursor_row, primary_screen, new,
  finalize_active, new_turn, submit_command, process_input_ground_byte, process_input_escape_byte,
  track_input_byte, track_input_bytes, append_output, sanitize, sanitize_byte, append_lossy_byte,
  track_active_output, track_output_bytes, step, run, update_cursor_abs_row, set_primary_screen,
}

-- A line feed, or a character that is no ASCII control character.
abbrev pub IsClean : ℕ → Type 0
IsClean c = (c ≡ b'\n') ⊎ ((0x20 ≤ c) × (c ≢ Bytes.delete))

abbrev CleanText : Text → Type 0
CleanText = All IsClean

abbrev pub CleanTurn : TurnRecord → Type 0
CleanTurn turn = CleanText turn.command_text × CleanText turn.output_text

pub record IsCleanTracker (t : TurnTracker) : Type 0 where
  pub line : CleanText t.input_line_buffer
  pub completed : All CleanTurn t.completed_turns
  pub active : All CleanTurn (active_list t.active_turn)

CleanText-trim_end : (t : Text) → CleanText t → CleanText (trim_end t)
unfolding trim_end
CleanText-trim_end [] h = h
CleanText-trim_end (c ∷ cs) h = ground (arith, CleanText-trim_end cs h.1)

CleanText-marker : CleanText truncation_marker
CleanText-marker = omega arith

finalize_active-clean :
    (m : ℕ) (completed : List TurnRecord) (active : Option TurnRecord)
    → All CleanTurn completed
    → All CleanTurn (active_list active)
    → All CleanTurn (finalize_active m completed active)
unfolding finalize_active
finalize_active-clean m completed none c a = c
finalize_active-clean m completed (some turn) c a =
    rw enforce_history_limit-drop
      (All-drop CleanTurn _ _ (All-append CleanTurn completed (turn ∷ []) c a))

new_turn-clean :
    (t : TurnTracker) (command : Text) → CleanText command → CleanTurn (new_turn t command)
unfolding new_turn
new_turn-clean t command h = (
  All-append_bounded_text IsClean CleanText-marker [] command t.max_bytes_per_turn false tt h,
  tt,
)

submit_command-clean : (t : TurnTracker) → IsCleanTracker t → IsCleanTracker (submit_command t)
unfolding submit_command
submit_command-clean t v = ground (
  arith,
  finalize_active-clean t.max_turns t.completed_turns t.active_turn v.completed v.active,
  new_turn-clean t (trim_end t.input_line_buffer) (CleanText-trim_end t.input_line_buffer v.line),
)

ground_byte-clean :
    (t : TurnTracker) (b : ℕ) → IsCleanTracker t → IsCleanTracker (process_input_ground_byte t b)
unfolding process_input_ground_byte append_lossy_byte
ground_byte-clean t b v = ground (
  arith,
  submit_command-clean t v,
  All-pop IsClean t.input_line_buffer v.line,
  All-append IsClean t.input_line_buffer (b ∷ []) v.line,
  All-append IsClean t.input_line_buffer (0xfffd ∷ []) v.line,
)

input_byte-clean :
    (t : TurnTracker) (b : ℕ) → IsCleanTracker t → IsCleanTracker (track_input_byte t b)
unfolding track_input_byte process_input_escape_byte
input_byte-clean t b v = ground (arith, ground_byte-clean t b v)

input_loop-clean :
    (bs : List ℕ) (t : TurnTracker)
    → IsCleanTracker t
    → IsCleanTracker (foldl track_input_byte t bs)
input_loop-clean [] t v = v
input_loop-clean (b ∷ bs) t v = input_loop-clean bs (track_input_byte t b) (input_byte-clean t b v)

sanitize_byte-clean :
    (s : EscapeState × Text) (b : ℕ) → CleanText s.1 → CleanText (sanitize_byte s b).1
unfolding sanitize_byte append_lossy_byte
sanitize_byte-clean (EscapeState.ground, text) b h = ground (
  arith,
  All-pop IsClean text h,
  All-append IsClean text (b ∷ []) h,
  All-append IsClean text (0xfffd ∷ []) h,
)
sanitize_byte-clean (EscapeState.escape, text) b h = h
sanitize_byte-clean (EscapeState.csi, text) b h = h
sanitize_byte-clean (EscapeState.ss3, text) b h = h

sanitize_loop-clean :
    (bs : List ℕ) (s : EscapeState × Text) → CleanText s.1 → CleanText (foldl sanitize_byte s bs).1
sanitize_loop-clean [] s h = h
sanitize_loop-clean (b ∷ bs) s h =
    sanitize_loop-clean bs (sanitize_byte s b) (sanitize_byte-clean s b h)

sanitize-clean : (state : EscapeState) (bs : List ℕ) → CleanText (sanitize state bs).1
unfolding sanitize
sanitize-clean state bs = sanitize_loop-clean bs (state, []) tt

append_output-clean :
    (bytes : ℕ) (turn : TurnRecord) (text : Text)
    → CleanTurn turn
    → CleanText text
    → CleanTurn (append_output bytes turn text)
unfolding append_output
append_output-clean bytes turn text (c, o) h = (
  c,
  All-append_bounded_text IsClean CleanText-marker turn.output_text text bytes turn.output_truncated
      o h,
)

active_output-clean :
    (t : TurnTracker) (turn : TurnRecord) (bs : List ℕ)
    → t.active_turn ≡ some turn
    → IsCleanTracker t
    → IsCleanTracker (track_active_output t turn bs)
unfolding track_active_output
active_output-clean t turn bs e v =
    let text = (sanitize t.output_escape_state bs).1 in
    ground (
      arith,
      append_output-clean t.max_bytes_per_turn turn text,
      sanitize-clean t.output_escape_state bs,
    )

output-clean :
    (t : TurnTracker) (bs : List ℕ) → IsCleanTracker t → IsCleanTracker (track_output_bytes t bs)
unfolding track_output_bytes
output-clean t bs v = elim (Option-cases t.active_turn) [
  | inl e ↦ ground arith
  | inr (turn, e) ↦ ground (arith, active_output-clean t turn bs e v)
]

step-clean : (t : TurnTracker) (e : Event) → IsCleanTracker t → IsCleanTracker (step t e)
unfolding step track_input_bytes
step-clean t (input bs) v = ground (arith, input_loop-clean bs t v)
step-clean t (output bs) v = output-clean t bs v
step-clean t (cursor_row row) v = unfold update_cursor_abs_row in ground arith
step-clean t (primary_screen b) v = unfold set_primary_screen in ground arith

run-clean :
    (events : List Event) (t : TurnTracker) → IsCleanTracker t → IsCleanTracker (run t events)
unfolding run
run-clean [] t v = v
run-clean (e ∷ es) t v = run-clean es (step t e) (step-clean t e v)

new-clean : (turns bytes : ℕ) → IsCleanTracker (new turns bytes)
unfolding new
new-clean turns bytes = record { line = tt; completed = tt; active = tt }

-- Whatever bytes a new tracker sees, escape sequences cut short or never ended included: the line
-- buffer and the texts of all its turns hold no ASCII control character but the line feed.
pub run-new-clean :
    (turns bytes : ℕ) (events : List Event) → IsCleanTracker (run (new turns bytes) events)
run-new-clean turns bytes events = run-clean events _ (new-clean turns bytes)
