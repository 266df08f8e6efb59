-- ===== src/Terminal/Turns/Lines.antt =====
-- What TurnTracker, in crates/seance-terminal/src/turns.rs, makes of the bytes of the input.
use mathlib.Core.List.{foldl-append}
use seance.Prelude.{
  ℕ, ◌≤◌, ◌≡◌, ◌≢◌, refl, ap, ◌∙◌, List, [], ◌∷◌, ◌++◌, map, some, arith, foldl, true, false, Text,
  if◌then◌else◌, is_empty, trim_end, text_len, text_len-trim_end, ltb, append-nil, append_assoc,
  All, pop-append,
}
use seance.Terminal.BoundedText.{append_bounded_text}
use seance.Terminal.BoundedText.Append.{append_bounded_text_lem}
use seance.Terminal.Turns.Bytes
use seance.Terminal.Turns.{
  TurnRecord, TurnTracker, EscapeState, new_turn, submit_command, process_input_ground_byte,
  process_input_escape_byte, track_input_byte_in, track_input_byte, track_input_bytes,
  csi_sequence_complete, append_lossy_byte, previous_turn,
}

-- The tracker reads the input as text.
pub record IsReading (t : TurnTracker) : Type 0 where
  pub captures : t.capture_primary_screen ≡ true
  pub at_ground : t.input_escape_state ≡ EscapeState.ground

captures-submit :
    (t : TurnTracker) → (submit_command t).capture_primary_screen ≡ t.capture_primary_screen
unfolding submit_command
captures-submit t = ground arith

captures-byte :
    (t : TurnTracker) (b : ℕ)
    → (track_input_byte t b).capture_primary_screen ≡ t.capture_primary_screen
unfolding track_input_byte process_input_ground_byte process_input_escape_byte
captures-byte t b = ground (arith, captures-submit t)

captures-loop :
    (t : TurnTracker) (bs : List ℕ)
    → (foldl track_input_byte t bs).capture_primary_screen ≡ t.capture_primary_screen
captures-loop t [] = refl
captures-loop t (b ∷ bs) = captures-loop (track_input_byte t b) bs ∙ captures-byte t b

-- It does not matter how the bytes of the input are split into reads.
pub track_input_bytes-append :
    (t : TurnTracker) (first second : List ℕ)
    → track_input_bytes t (first ++ second) ≡ track_input_bytes (track_input_bytes t first) second
unfolding track_input_bytes
track_input_bytes-append t first second =
    ground (arith, captures-loop t first, foldl-append track_input_byte t first second)

reading-loop :
    (t : TurnTracker) (bs : List ℕ)
    → IsReading t
    → track_input_bytes t bs ≡ foldl track_input_byte t bs
unfolding track_input_bytes
reading-loop t bs r = ground arith

csi_start :
    (t : TurnTracker)
    → t.input_escape_state ≡ EscapeState.ground
    → track_input_byte (track_input_byte t Bytes.escape) b'['
      ≡ record t { input_escape_state = EscapeState.csi }
unfolding track_input_byte process_input_ground_byte process_input_escape_byte
csi_start t e = rw (e, track_input_byte)

at_ground-eta :
    (t : TurnTracker)
    → t.input_escape_state ≡ EscapeState.ground
    → record t { input_escape_state = EscapeState.ground } ≡ t
at_ground-eta t e = ground arith

csi_loop :
    (t : TurnTracker) (params : List ℕ) (final : ℕ)
    → t.input_escape_state ≡ EscapeState.csi
    → All (λ b. csi_sequence_complete b ≡ false) params
    → csi_sequence_complete final ≡ true
    → foldl track_input_byte t (params ++ final ∷ [])
      ≡ record t { input_escape_state = EscapeState.ground }
csi_loop t [] final e h f = unfold track_input_byte in ground arith
csi_loop t (p ∷ ps) final e h f =
    let stays : track_input_byte t p ≡ t = unfold track_input_byte in ground arith in
    ap (λ s. foldl track_input_byte s (ps ++ final ∷ [])) stays ∙ csi_loop t ps final e h.1 f

-- A control sequence of the input, ESC `[`, parameters and a final byte from 0x40 to 0x7e, leaves
-- the tracker as it was.
pub control_sequence_ignored :
    (t : TurnTracker) (params : List ℕ) (final : ℕ)
    → IsReading t
    → All (λ b. csi_sequence_complete b ≡ false) params
    → csi_sequence_complete final ≡ true
    → track_input_bytes t (Bytes.escape ∷ b'[' ∷ params ++ final ∷ []) ≡ t
control_sequence_ignored t params final r h f =
    reading-loop t _ r
    ∙ ap (λ s. foldl track_input_byte s (params ++ final ∷ [])) (csi_start t r.at_ground)
    ∙ csi_loop (record t { input_escape_state = EscapeState.csi }) params final refl h f
    ∙ at_ground-eta t r.at_ground

-- A byte that stands for a character of the line: printable ASCII, or from 0x80 up.
abbrev pub IsTyped : ℕ → Type 0
IsTyped b = (0x20 ≤ b) × (b ≤ 0xff) × (b ≢ Bytes.delete)

-- The character that the line gets for such a byte.
abbrev pub typed_char : ℕ → ℕ
typed_char b = if ltb b 0x80 then b else 0xfffd

abbrev pub typed : TurnTracker → Text → TurnTracker
typed t text = record t { input_line_buffer = t.input_line_buffer ++ text }

ground_typed :
    (t : TurnTracker) (b : ℕ)
    → IsTyped b
    → process_input_ground_byte t b ≡ typed t (typed_char b ∷ [])
unfolding process_input_ground_byte append_lossy_byte
ground_typed t b h = ground arith

at_ground_byte :
    (t : TurnTracker) (b : ℕ)
    → t.input_escape_state ≡ EscapeState.ground
    → track_input_byte t b ≡ process_input_ground_byte t b
unfolding track_input_byte
at_ground_byte t b e = ap (λ s. track_input_byte_in s t b) e

typed_byte :
    (t : TurnTracker) (b : ℕ)
    → t.input_escape_state ≡ EscapeState.ground
    → IsTyped b
    → track_input_byte t b ≡ typed t (typed_char b ∷ [])
typed_byte t b e h = at_ground_byte t b e ∙ ground_typed t b h

typed_loop :
    (t : TurnTracker) (bs : List ℕ)
    → t.input_escape_state ≡ EscapeState.ground
    → All IsTyped bs
    → foldl track_input_byte t bs ≡ typed t (map typed_char bs)
typed_loop t [] e h = ground (arith, append-nil t.input_line_buffer)
typed_loop t (b ∷ bs) e h =
    ap (λ s. foldl track_input_byte s bs) (typed_byte t b e h.0)
    ∙ typed_loop (typed t (typed_char b ∷ [])) bs e h.1
    ∙ ground (arith, append_assoc t.input_line_buffer (typed_char b ∷ []) (map typed_char bs))

-- Typed bytes are appended to the line, one character for each byte, and change nothing else. A
-- byte from 0x80 up becomes U+FFFD on its own, also as a part of a character in UTF-8.
pub track_input_bytes-typed :
    (t : TurnTracker) (bs : List ℕ)
    → IsReading t
    → All IsTyped bs
    → track_input_bytes t bs ≡ typed t (map typed_char bs)
track_input_bytes-typed t bs r h = reading-loop t bs r ∙ typed_loop t bs r.at_ground h

-- Backspaces, one for each byte.
abbrev pub erasing : List ℕ → List ℕ
erasing [] = []
erasing (b ∷ bs) = erasing bs ++ Bytes.delete ∷ []

erase_byte :
    (t : TurnTracker) (c : ℕ)
    → t.input_escape_state ≡ EscapeState.ground
    → track_input_byte (typed t (c ∷ [])) Bytes.delete ≡ t
unfolding process_input_ground_byte
erase_byte t c e =
    at_ground_byte (typed t (c ∷ [])) Bytes.delete e
    ∙ ground (arith, pop-append t.input_line_buffer c)

erase_loop :
    (t : TurnTracker) (bs : List ℕ)
    → t.input_escape_state ≡ EscapeState.ground
    → foldl track_input_byte (typed t (map typed_char bs)) (erasing bs) ≡ t
erase_loop t [] e = ground (arith, append-nil t.input_line_buffer)
erase_loop t (b ∷ bs) e =
    let first = typed t (typed_char b ∷ []) in
    let regroup : typed t (map typed_char (b ∷ bs)) ≡ typed first (map typed_char bs) =
      ground (arith, append_assoc t.input_line_buffer (typed_char b ∷ []) (map typed_char bs)) in
    rw (foldl-append track_input_byte, regroup)
      (ap (λ s. track_input_byte s Bytes.delete) (erase_loop first bs e)
        ∙ erase_byte t (typed_char b) e)

-- Text that is typed and then erased, a backspace for each byte, leaves the tracker as it was.
pub typed-erased :
    (t : TurnTracker) (bs : List ℕ)
    → IsReading t
    → All IsTyped bs
    → track_input_bytes t (bs ++ erasing bs) ≡ t
typed-erased t bs r h =
    reading-loop t _ r
    ∙ rw (foldl-append track_input_byte, typed_loop t bs r.at_ground h)
        (erase_loop t bs r.at_ground)

enter_byte :
    (t : TurnTracker)
    → t.input_escape_state ≡ EscapeState.ground
    → track_input_byte t b'\r' ≡ submit_command t
unfolding process_input_ground_byte
enter_byte t e = at_ground_byte t b'\r' e

new_turn-fits :
    (t : TurnTracker) (command : Text)
    → text_len command ≤ t.max_bytes_per_turn
    → append_bounded_text [] command t.max_bytes_per_turn false ≡ (command, false)
unfolding text_len
new_turn-fits t command h = ground (arith, append_bounded_text_lem [] command t.max_bytes_per_turn)

entered :
    (t : TurnTracker) (bs : List ℕ)
    → IsReading t
    → t.input_line_buffer ≡ []
    → All IsTyped bs
    → track_input_bytes t (bs ++ b'\r' ∷ [])
      ≡ submit_command (record t { input_line_buffer = map typed_char bs })
entered t bs r e h =
    let line : typed t (map typed_char bs) ≡ record t { input_line_buffer = map typed_char bs } =
      ground arith in
    reading-loop t _ r
    ∙ rw (foldl-append track_input_byte, typed_loop t bs r.at_ground h)
        (enter_byte (typed t (map typed_char bs)) r.at_ground ∙ ap submit_command line)

-- A line typed on an empty buffer and entered starts a turn: its command is the line, less the
-- blanks at its end, the turn has the next id, and the buffer is empty again. The line is not
-- blank, and is within the limit in bytes.
pub entered_line :
    (t : TurnTracker) (bs : List ℕ)
    → IsReading t
    → t.input_line_buffer ≡ []
    → All IsTyped bs
    → is_empty (trim_end (map typed_char bs)) ≡ false
    → text_len (map typed_char bs) ≤ t.max_bytes_per_turn
    → let s = track_input_bytes t (bs ++ b'\r' ∷ []) in
      (s.input_line_buffer ≡ [])
      × ((turn : TurnRecord) × (previous_turn s ≡ some turn)
          × (turn.command_text ≡ trim_end (map typed_char bs))
          × (turn.command_truncated ≡ false)
          × (turn.output_text ≡ [])
          × (turn.turn_id ≡ t.next_turn_id))
unfolding submit_command previous_turn new_turn
entered_line t bs r e h line fits =
    let text = map typed_char bs in
    let u = record t { input_line_buffer = text } in
    let room : text_len (trim_end text) ≤ t.max_bytes_per_turn =
      omega (arith, text_len-trim_end text) in
    let command = new_turn-fits u (trim_end text) room in
    rw (entered t bs r e h, submit_command, line)
      (
        refl,
        (
          new_turn u (trim_end text),
          refl,
          ap (λ p. p.0) command,
          ap (λ p. p.1) command,
          refl,
          refl,
        ),
      )
