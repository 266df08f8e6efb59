-- ===== src/Terminal/Turns/Bounds.antt =====
-- The limits of TurnTracker, in crates/seance-terminal/src/turns.rs, on turns and on bytes.
use seance.Prelude.{
  ℕ, ◌-◌, ◌≤◌, ◌≡◌, refl, List, [], ◌∷◌, ◌++◌, Option, some, arith, max, foldl, false, length,
  length-drop, All, All-append, Text, text_len, Option-cases, inl, inr, trim_end,
}
use seance.Terminal.BoundedText.Append.{append_bounded_text_within, marker_len}
use seance.Terminal.Turns.{
  TurnRecord, TurnTracker, Event, input, output, cursor_row, primary_screen, new, finalize_active,
  new_turn, submit_command, process_input_ground_byte, process_input_escape_byte, track_input_byte,
  track_input_bytes, append_output, sanitize, track_active_output, track_output_bytes, step, run,
  update_cursor_abs_row, set_primary_screen,
}
use seance.Terminal.Turns.History.{active_list, All-drop, finalize_active-drop}

-- Both texts of a turn lie within `max_bytes`.
abbrev pub Fits : ℕ → TurnRecord → Type 0
Fits max_bytes turn =
    (text_len turn.command_text ≤ max_bytes) × (text_len turn.output_text ≤ max_bytes)

-- The tracker has these limits, and its turns keep to them.
pub record IsBounded (turns bytes : ℕ) (t : TurnTracker) : Type 0 where
  pub turn_limit : t.max_turns ≡ turns
  pub byte_limit : t.max_bytes_per_turn ≡ bytes
  pub few : length t.completed_turns ≤ turns
  pub completed_fit : All (Fits bytes) t.completed_turns
  pub active_fits : All (Fits bytes) (active_list t.active_turn)

empty_len : text_len [] ≡ 0
unfolding text_len
empty_len = refl

new-IsBounded : (turns bytes : ℕ) → IsBounded (max turns 1) (max bytes 15) (new turns bytes)
unfolding new
new-IsBounded turns bytes = record {
  turn_limit = refl;
  byte_limit = rw marker_len;
  few = omega arith;
  completed_fit = tt;
  active_fits = tt;
}

new_turn-Fits : (t : TurnTracker) (command : Text) → Fits t.max_bytes_per_turn (new_turn t command)
unfolding new_turn
new_turn-Fits t command = (
  (append_bounded_text_within [] command t.max_bytes_per_turn false (omega (arith, empty_len))).0,
  omega (arith, empty_len),
)

finalize_active-Fits :
    (m bytes : ℕ) (completed : List TurnRecord) (active : Option TurnRecord)
    → length completed ≤ m
    → All (Fits bytes) completed
    → All (Fits bytes) (active_list active)
    → (length (finalize_active m completed active) ≤ m)
      × All (Fits bytes) (finalize_active m completed active)
finalize_active-Fits m bytes completed active h c a =
    let all = completed ++ active_list active in
    rw (finalize_active-drop m completed active h) (
      omega (arith, length-drop (length all - m) all),
      All-drop (Fits bytes) (length all - m) all (All-append (Fits bytes) _ _ c a),
    )

module _ (turns bytes : ℕ) where
  submit_command-IsBounded :
      (t : TurnTracker) → IsBounded turns bytes t → IsBounded turns bytes (submit_command t)
  unfolding submit_command
  submit_command-IsBounded t v = ground (
    arith,
    finalize_active-Fits t.max_turns t.max_bytes_per_turn t.completed_turns t.active_turn,
    new_turn-Fits t (trim_end t.input_line_buffer),
  )

  ground_byte-IsBounded :
      (t : TurnTracker) (byte : ℕ)
      → IsBounded turns bytes t
      → IsBounded turns bytes (process_input_ground_byte t byte)
  unfolding process_input_ground_byte
  ground_byte-IsBounded t byte v = ground (arith, submit_command-IsBounded t v)

  input_byte-IsBounded :
      (t : TurnTracker) (byte : ℕ)
      → IsBounded turns bytes t
      → IsBounded turns bytes (track_input_byte t byte)
  unfolding track_input_byte process_input_escape_byte
  input_byte-IsBounded t byte v = ground (arith, ground_byte-IsBounded t byte v)

  input_loop-IsBounded :
      (bs : List ℕ) (t : TurnTracker)
      → IsBounded turns bytes t
      → IsBounded turns bytes (foldl track_input_byte t bs)
  input_loop-IsBounded [] t v = v
  input_loop-IsBounded (b ∷ bs) t v =
      input_loop-IsBounded bs (track_input_byte t b) (input_byte-IsBounded t b v)

  append_output-Fits :
      (turn : TurnRecord) (sanitized : Text)
      → Fits bytes turn
      → Fits bytes (append_output bytes turn sanitized)
  unfolding append_output
  append_output-Fits turn sanitized (c, o) =
      (c, (append_bounded_text_within turn.output_text sanitized bytes turn.output_truncated o).0)

  active_output-IsBounded :
      (t : TurnTracker) (turn : TurnRecord) (bs : List ℕ)
      → t.active_turn ≡ some turn
      → IsBounded turns bytes t
      → IsBounded turns bytes (track_active_output t turn bs)
  unfolding track_active_output
  active_output-IsBounded t turn bs e v =
      ground (arith, append_output-Fits turn (sanitize t.output_escape_state bs).1)

  output-IsBounded :
      (t : TurnTracker) (bs : List ℕ)
      → IsBounded turns bytes t
      → IsBounded turns bytes (track_output_bytes t bs)
  unfolding track_output_bytes
  output-IsBounded t bs v = elim (Option-cases t.active_turn) [
    | inl e ↦ ground arith
    | inr (turn, e) ↦ ground (arith, active_output-IsBounded t turn bs e v)
  ]

  step-IsBounded :
      (t : TurnTracker) (e : Event) → IsBounded turns bytes t → IsBounded turns bytes (step t e)
  unfolding step track_input_bytes
  step-IsBounded t (input bs) v = ground (arith, input_loop-IsBounded bs t v)
  step-IsBounded t (output bs) v = output-IsBounded t bs v
  step-IsBounded t (cursor_row row) v = unfold update_cursor_abs_row in ground arith
  step-IsBounded t (primary_screen b) v = unfold set_primary_screen in ground arith

  run-IsBounded :
      (t : TurnTracker) (events : List Event)
      → IsBounded turns bytes t
      → IsBounded turns bytes (run t events)
  unfolding run
  run-IsBounded t [] v = v
  run-IsBounded t (e ∷ es) v = run-IsBounded (step t e) es (step-IsBounded t e v)

-- Whatever bytes, cursor rows and screen changes a new tracker sees: it holds at most `turns`
-- completed turns (one, if `turns` is 0), and the command and the output of each turn, the active
-- one included, are at most `bytes` bytes long (15, the marker's length, if `bytes` is less).
pub run-new-IsBounded :
    (turns bytes : ℕ) (events : List Event)
    → IsBounded (max turns 1) (max bytes 15) (run (new turns bytes) events)
run-new-IsBounded turns bytes events = run-IsBounded _ _ _ events (new-IsBounded turns bytes)
