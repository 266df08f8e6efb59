-- ===== src/Terminal/Turns/Numbering.antt =====
-- The ids that TurnTracker, in crates/seance-terminal/src/turns.rs, gives to its turns.
use mathlib.Core.Option
use mathlib.Core.List.{map-append}
use seance.Prelude.{
  ℕ, suc, ◌+◌, ◌<◌, ◌≡◌, refl, List, [], ◌∷◌, ◌++◌, map, Option, none, some, arith, foldl,
  Option-cases, inl, inr, Bool-cases, length, is_empty, trim_end, u64_max, saturating_add_below,
  ltb, append-nil,
}
use seance.Terminal.Turns.{
  TurnRecord, TurnTracker, Event, input, output, cursor_row, primary_screen, new,
  enforce_history_limit, finalize_active, new_turn, submit_command, process_input_ground_byte,
  process_input_escape_byte, track_input_byte, track_input_bytes, append_output, sanitize,
  track_active_output, track_output_bytes, step, run, update_cursor_abs_row, set_end_row,
  set_primary_screen,
}
use seance.Terminal.Turns.History.{active_list}

abbrev pub ids : List TurnRecord → List ℕ
ids = map (λ turn. turn.turn_id)

abbrev pub all_turns : TurnTracker → List TurnRecord
all_turns t = t.completed_turns ++ active_list t.active_turn

-- The numbers from `lo` up to `hi`, in order and without a gap.
abbrev pub Numbered : ℕ → List ℕ → ℕ → Type 0
Numbered lo [] hi = lo ≡ hi
Numbered lo (x ∷ xs) hi = (x ≡ lo) × Numbered (suc lo) xs hi

-- The turns that are kept bear the ids just below the next one.
abbrev pub IsNumbered : TurnTracker → Type 0
IsNumbered t = (lo : ℕ) × Numbered lo (ids (all_turns t)) t.next_turn_id

Numbered-append :
    (lo hi : ℕ) (xs : List TurnRecord) (x : TurnRecord)
    → Numbered lo (ids xs) hi
    → x.turn_id ≡ hi
    → Numbered lo (ids (xs ++ x ∷ [])) (hi + 1)
Numbered-append lo hi [] x h e = omega arith
Numbered-append lo hi (y ∷ ys) x h e = (h.0, Numbered-append (suc lo) hi ys x h.1 e)

Numbered-enforce :
    (m lo hi : ℕ) (xs : List TurnRecord)
    → Numbered lo (ids xs) hi
    → (lo' : ℕ) × Numbered lo' (ids (enforce_history_limit m xs)) hi
unfolding enforce_history_limit
Numbered-enforce m lo hi [] h = (lo, h)
Numbered-enforce m lo hi (x ∷ xs) h = elim (Bool-cases (ltb m (length (x ∷ xs)))) [
  | inl over ↦ rw over (Numbered-enforce m (suc lo) hi xs h.1)
  | inr fits ↦ rw fits (lo, h)
]

Numbered-finalize :
    (m lo hi : ℕ) (completed : List TurnRecord) (active : Option TurnRecord)
    → Numbered lo (ids (completed ++ active_list active)) hi
    → (lo' : ℕ) × Numbered lo' (ids (finalize_active m completed active)) hi
unfolding finalize_active
Numbered-finalize m lo hi completed none h = (lo, rw (append-nil completed) at h)
Numbered-finalize m lo hi completed (some turn) h = Numbered-enforce m lo hi _ h

-- What a call does to the numbering, as long as the counter has not reached its end.
record Advances (t s : TurnTracker) : Type 0 where
  before : s.next_turn_id < u64_max → t.next_turn_id < u64_max
  keeps : s.next_turn_id < u64_max → IsNumbered t → IsNumbered s

Advances-trans : (r s t : TurnTracker) → Advances r s → Advances s t → Advances r t
Advances-trans r s t a b = record {
  before = λ h. a.before (b.before h);
  keeps = λ h n. b.keeps h (a.keeps (b.before h) n);
}

-- A call that changes neither the counter nor any id.
Advances-same :
    (t s : TurnTracker)
    → s.next_turn_id ≡ t.next_turn_id
    → ids (all_turns s) ≡ ids (all_turns t)
    → Advances t s
Advances-same t s e k = record { before = λ h. omega arith; keeps = λ h n. (n.0, rw (e, k) n.1) }

submit_command-Advances : (t : TurnTracker) → Advances t (submit_command t)
unfolding submit_command
submit_command-Advances t = elim (Bool-cases (is_empty (trim_end t.input_line_buffer))) [
  | inl blank ↦ rw blank (Advances-same t _ refl refl)
  | inr line ↦ rw line (record {
    before = λ h. omega (arith, saturating_add_below t.next_turn_id 1 h);
    keeps = λ h n.
        let kept = Numbered-finalize t.max_turns n.0 t.next_turn_id _ _ n.1 in
        (
          kept.0,
          rw (saturating_add_below t.next_turn_id 1 h) (
              Numbered-append kept.0 t.next_turn_id _ (new_turn t (trim_end t.input_line_buffer))
                kept.1 (unfold new_turn in refl)),
        );
  })
]

ground_byte-Advances : (t : TurnTracker) (byte : ℕ) → Advances t (process_input_ground_byte t byte)
unfolding process_input_ground_byte
ground_byte-Advances t byte =
    ground (arith, submit_command-Advances t, Advances-same t (process_input_ground_byte t byte))

input_byte-Advances : (t : TurnTracker) (byte : ℕ) → Advances t (track_input_byte t byte)
unfolding track_input_byte process_input_escape_byte
input_byte-Advances t byte =
    ground (arith, ground_byte-Advances t byte, Advances-same t (track_input_byte t byte))

input_loop-Advances : (bs : List ℕ) (t : TurnTracker) → Advances t (foldl track_input_byte t bs)
input_loop-Advances [] t = Advances-same t t refl refl
input_loop-Advances (b ∷ bs) t =
    Advances-trans t (track_input_byte t b) _ (input_byte-Advances t b)
      (input_loop-Advances bs (track_input_byte t b))

set_end_row-ids :
    (row : ℕ) (active : Option TurnRecord)
    → ids (active_list (Option.map (set_end_row row) active)) ≡ ids (active_list active)
unfolding set_end_row
set_end_row-ids row none = refl
set_end_row-ids row (some turn) = refl

active_output-Advances :
    (t : TurnTracker) (turn : TurnRecord) (bs : List ℕ)
    → t.active_turn ≡ some turn
    → Advances t (track_active_output t turn bs)
unfolding track_active_output append_output
active_output-Advances t turn bs e =
    elim (Bool-cases (is_empty (sanitize t.output_escape_state bs).1)) [
      | inl nothing ↦ rw nothing (Advances-same t _ refl refl)
      | inr text ↦ rw text (Advances-same t _ refl (rw (e, active_list) (simp map-append)))
    ]

output-Advances : (t : TurnTracker) (bs : List ℕ) → Advances t (track_output_bytes t bs)
unfolding track_output_bytes
output-Advances t bs = elim (Option-cases t.active_turn) [
  | inl e ↦ ground (arith, Advances-same t (track_output_bytes t bs))
  | inr (turn, e) ↦
      ground (arith, Advances-same t (track_output_bytes t bs), active_output-Advances t turn bs e)
]

step-Advances : (t : TurnTracker) (e : Event) → Advances t (step t e)
unfolding step track_input_bytes
step-Advances t (input bs) = ground (arith, Advances-same t t refl refl, input_loop-Advances bs t)
step-Advances t (output bs) = output-Advances t bs
step-Advances t (cursor_row row) =
    unfold update_cursor_abs_row in Advances-same t _ refl (simp (map-append, set_end_row-ids))
step-Advances t (primary_screen b) = unfold set_primary_screen in Advances-same t _ refl refl

run-Advances : (events : List Event) (t : TurnTracker) → Advances t (run t events)
unfolding run
run-Advances [] t = Advances-same t t refl refl
run-Advances (e ∷ es) t =
    Advances-trans t (step t e) _ (step-Advances t e) (run-Advances es (step t e))

new-IsNumbered : (turns bytes : ℕ) → IsNumbered (new turns bytes)
unfolding new
new-IsNumbered turns bytes = (1, refl)

-- Whatever a new tracker sees, the turns that it holds, oldest first and with the active one last,
-- bear consecutive ids, of which the last is just below the next id: none is missing, and none is
-- given twice. The condition is that the 64-bit counter has not come to its end, where it stays.
pub run-new-IsNumbered :
    (turns bytes : ℕ) (events : List Event)
    → (run (new turns bytes) events).next_turn_id < u64_max
    → IsNumbered (run (new turns bytes) events)
run-new-IsNumbered turns bytes events h =
    (run-Advances events (new turns bytes)).keeps h (new-IsNumbered turns bytes)
