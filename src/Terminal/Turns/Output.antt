-- ===== src/Terminal/Turns/Output.antt =====
-- What TurnTracker, in crates/seance-terminal/src/turns.rs, makes of the bytes of the output.
use mathlib.Core.List.{foldl-append}
use seance.Prelude.{
  ℕ, ◌+◌, ◌≤◌, ◌≡◌, refl, sym, ap, ◌∙◌, ◌⊎◌, List, [], ◌∷◌, ◌++◌, some, arith, foldl, Bool, true,
  false, Option-cases, inl, inr, Text, text_len, append-nil, append_assoc, All, pop,
}
use seance.Terminal.BoundedText.{append_bounded_text}
use seance.Terminal.BoundedText.Append.{append_bounded_text_lem}
use seance.Terminal.Turns.Bytes
use seance.Terminal.Turns.{
  TurnRecord, TurnTracker, EscapeState, csi_sequence_complete, sanitize_byte, sanitize,
  append_output, track_active_output, track_output_bytes,
}

-- A byte that is shown: printable ASCII, or a line feed.
abbrev pub IsShown : ℕ → Type 0
IsShown b = (b ≡ b'\n') ⊎ ((0x20 ≤ b) × (b ≤ 0x7e))

shown_byte :
    (text : Text) (b : ℕ)
    → IsShown b
    → sanitize_byte (EscapeState.ground, text) b ≡ (EscapeState.ground, text ++ b ∷ [])
unfolding sanitize_byte
shown_byte text b h = ground arith

shown_loop :
    (text : Text) (bs : List ℕ)
    → All IsShown bs
    → foldl sanitize_byte (EscapeState.ground, text) bs ≡ (EscapeState.ground, text ++ bs)
shown_loop text [] h = ground (arith, append-nil text)
shown_loop text (b ∷ bs) h =
    ap (λ s. foldl sanitize_byte s bs) (shown_byte text b h.0)
    ∙ shown_loop (text ++ b ∷ []) bs h.1
    ∙ ground (arith, append_assoc text (b ∷ []) bs)

sanitize-shown :
    (bs : List ℕ) → All IsShown bs → sanitize EscapeState.ground bs ≡ (EscapeState.ground, bs)
unfolding sanitize
sanitize-shown bs h = shown_loop [] bs h

csi_byte :
    (text : Text) (b : ℕ)
    → csi_sequence_complete b ≡ false
    → sanitize_byte (EscapeState.csi, text) b ≡ (EscapeState.csi, text)
unfolding sanitize_byte
csi_byte text b h = rw h

sanitize_csi :
    (text : Text) (params : List ℕ) (final : ℕ)
    → All (λ b. csi_sequence_complete b ≡ false) params
    → csi_sequence_complete final ≡ true
    → foldl sanitize_byte (EscapeState.csi, text) (params ++ final ∷ [])
      ≡ (EscapeState.ground, text)
sanitize_csi text [] final h f = unfold sanitize_byte in rw f
sanitize_csi text (p ∷ ps) final h f =
    ap (λ s. foldl sanitize_byte s (ps ++ final ∷ [])) (csi_byte text p h.0)
    ∙ sanitize_csi text ps final h.1 f

-- A control sequence, wherever it stands in a read, is as good as not there: ESC `[`, parameters
-- and a final byte from 0x40 to 0x7e, between shown bytes and any bytes that follow.
pub sanitize-control_sequence :
    (before params after : List ℕ) (final : ℕ)
    → All IsShown before
    → All (λ b. csi_sequence_complete b ≡ false) params
    → csi_sequence_complete final ≡ true
    → sanitize EscapeState.ground (before ++ (Bytes.escape ∷ b'[' ∷ params ++ final ∷ []) ++ after)
      ≡ sanitize EscapeState.ground (before ++ after)
unfolding sanitize sanitize_byte
sanitize-control_sequence before params after final b h f =
    rw (foldl-append sanitize_byte, foldl-append sanitize_byte, shown_loop [] before b)
      (ap (λ s. foldl sanitize_byte s after) (sanitize_csi before params final h f)
        ∙ sym (
            foldl-append sanitize_byte (EscapeState.ground, []) before after
            ∙ ap (λ s. foldl sanitize_byte s after) (shown_loop [] before b)))

-- The tracker copies output into this turn.
pub record IsCopying (t : TurnTracker) (turn : TurnRecord) : Type 0 where
  pub captures : t.capture_primary_screen ≡ true
  pub at_ground : t.output_escape_state ≡ EscapeState.ground
  pub active : t.active_turn ≡ some turn
  pub whole : turn.output_truncated ≡ false
  pub within : text_len turn.output_text ≤ t.max_bytes_per_turn

abbrev pub with_output : TurnTracker → TurnRecord → Text → TurnTracker
with_output t turn text = record t {
  active_turn = some (record turn { output_text = turn.output_text ++ text });
}

output_room :
    (output text : Text) (max_bytes : ℕ) (truncated : Bool)
    → text_len output + text_len text ≤ max_bytes
    → truncated ≡ false
    → append_bounded_text output text max_bytes truncated ≡ (output ++ text, false)
output_room output text max_bytes truncated h e =
    rw e (ground (arith, append_bounded_text_lem output text max_bytes))

-- Shown bytes are appended to the output of the active turn as long as there is room for them, and
-- change nothing else.
pub track_output_bytes-shown :
    (t : TurnTracker) (turn : TurnRecord) (bs : List ℕ)
    → IsCopying t turn
    → All IsShown bs
    → text_len turn.output_text + text_len bs ≤ t.max_bytes_per_turn
    → track_output_bytes t bs ≡ with_output t turn bs
unfolding track_output_bytes track_active_output append_output
track_output_bytes-shown t turn bs c h room =
    rw
      (
        c.captures,
        c.active,
        track_output_bytes,
        track_active_output,
        c.at_ground,
        sanitize-shown bs h,
      )
      (ground (
        arith,
        output_room turn.output_text bs t.max_bytes_per_turn turn.output_truncated,
        append-nil turn.output_text,
      ))

nothing_shown :
    (t : TurnTracker) (bs : List ℕ)
    → t.output_escape_state ≡ EscapeState.ground
    → sanitize EscapeState.ground bs ≡ (EscapeState.ground, [])
    → track_output_bytes t bs ≡ t
unfolding track_output_bytes track_active_output
nothing_shown t bs g e = elim (Option-cases t.active_turn) [
  | inl n ↦ ground arith
  | inr (turn, a) ↦
      let e' : sanitize t.output_escape_state bs ≡ (EscapeState.ground, []) =
        ap (λ s. sanitize s bs) g ∙ e in
      ground arith
]

erased_at_once :
    (c : ℕ)
    → IsShown c
    → sanitize EscapeState.ground (c ∷ Bytes.backspace ∷ []) ≡ (EscapeState.ground, [])
unfolding sanitize pop
erased_at_once c h =
    ap (λ s. sanitize_byte s Bytes.backspace) (shown_byte [] c h) ∙ (unfold sanitize_byte in refl)

-- A backspace erases a shown byte of its own read, and not one of the read before: a byte with its
-- backspace in one read leaves no trace, and in two reads the byte stays in the output. So the
-- output of a turn depends on how the bytes are split into reads.
pub track_output_bytes-backspace :
    (t : TurnTracker) (turn : TurnRecord) (c : ℕ)
    → IsCopying t turn
    → IsShown c
    → text_len turn.output_text + text_len (c ∷ []) ≤ t.max_bytes_per_turn
    → (track_output_bytes t (c ∷ Bytes.backspace ∷ []) ≡ t)
      × (track_output_bytes (track_output_bytes t (c ∷ [])) (Bytes.backspace ∷ [])
          ≡ with_output t turn (c ∷ []))
track_output_bytes-backspace t turn c v h room = (
  nothing_shown t _ v.at_ground (erased_at_once c h),
  rw (track_output_bytes-shown t turn (c ∷ []) v (h, tt) room) (
      nothing_shown (with_output t turn (c ∷ [])) _ v.at_ground
        (unfold sanitize sanitize_byte pop in refl)),
)
