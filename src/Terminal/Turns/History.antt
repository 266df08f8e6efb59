-- ===== src/Terminal/Turns/History.antt =====
-- The queue of completed turns of crates/seance-terminal/src/turns.rs.
use seance.Prelude.{
  ℕ, zero, suc, ◌-◌, ◌≤◌, ◌≡◌, refl, List, [], ◌∷◌, ◌++◌, Option, none, some, arith, ltb, length,
  drop, append-nil, is_empty, trim_end, false, All, Bool-cases, inl, inr,
}
use seance.Terminal.Turns.{
  TurnRecord, TurnTracker, enforce_history_limit, finalize_active, new_turn, submit_command,
}

-- Popping from the front until the limit holds drops the surplus at once.
pub enforce_history_limit-drop :
    (max_turns : ℕ) (xs : List TurnRecord)
    → enforce_history_limit max_turns xs ≡ drop (length xs - max_turns) xs
unfolding enforce_history_limit
enforce_history_limit-drop m [] = let e : 0 - m ≡ 0 = omega arith in rw e
enforce_history_limit-drop m (x ∷ xs) = elim (Bool-cases (ltb m (length (x ∷ xs)))) [
  | inl over ↦
      let e : length (x ∷ xs) - m ≡ suc (length xs - m) = ground arith in
      rw (over, e) (enforce_history_limit-drop m xs)
  | inr fits ↦ rw fits (let e : length (x ∷ xs) - m ≡ 0 = ground arith in rw e)
]

pub All-drop {κ} :
    (P : TurnRecord → Type κ) (n : ℕ) (xs : List TurnRecord) → All P xs → All P (drop n xs)
All-drop P zero xs h = h
All-drop P (suc n) [] h = h
All-drop P (suc n) (x ∷ xs) h = All-drop P n xs h.1

-- The active turn as the last entry of a list.
abbrev pub active_list : Option TurnRecord → List TurnRecord
active_list none = []
active_list (some turn) = turn ∷ []

pub finalize_active-drop :
    (max_turns : ℕ) (completed : List TurnRecord) (active : Option TurnRecord)
    → length completed ≤ max_turns
    → finalize_active max_turns completed active
      ≡ drop
          (length (completed ++ active_list active) - max_turns)
          (completed ++ active_list active)
unfolding finalize_active
finalize_active-drop m completed none h =
    rw append-nil (let e : length completed - m ≡ 0 = omega arith in rw e)
finalize_active-drop m completed (some turn) h = enforce_history_limit-drop m _

-- A submitted line that is not blank ends the active turn: of the completed turns and that one the
-- newest `max_turns` are kept, in order. The line buffer is empty, and the new active turn has the
-- next id, no output, and starts at the cursor's row.
pub submit_command_history :
    (t : TurnTracker)
    → is_empty (trim_end t.input_line_buffer) ≡ false
    → length t.completed_turns ≤ t.max_turns
    → let all = t.completed_turns ++ active_list t.active_turn in
      let s = submit_command t in
      (s.completed_turns ≡ drop (length all - t.max_turns) all)
      × (s.input_line_buffer ≡ [])
      × ((turn : TurnRecord) × (s.active_turn ≡ some turn)
          × (turn.turn_id ≡ t.next_turn_id)
          × (turn.output_text ≡ [])
          × (turn.start_row ≡ t.latest_cursor_abs_row)
          × (turn.end_row ≡ t.latest_cursor_abs_row))
unfolding submit_command new_turn
submit_command_history t line h =
    rw (line, submit_command)
      (
        finalize_active-drop t.max_turns t.completed_turns t.active_turn h,
        refl,
        (new_turn t (trim_end t.input_line_buffer), refl, refl, refl, refl, refl),
      )
