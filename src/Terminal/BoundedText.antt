-- ===== src/Terminal/BoundedText.antt =====
-- The text helpers at the end of crates/seance-terminal/src/turns.rs: appending to a buffer that
-- has a limit in bytes, with a marker where the text was cut.
pub mod Boundary
pub mod Append
pub mod Contents
pub mod Tests
use mathlib.Core.Option
use mathlib.Core.Option.{get_or}
use seance.Prelude.{
  ℕ, zero, suc, ◌+◌, ◌-◌, Bool, true, ◌||◌, Option, none, some, List, [], ◌∷◌, ◌++◌, min, ltb, leb,
  if◌then◌else◌, is_empty, Text, codes, len_utf8, text_len,
}

abbrev pub truncation_marker : Text
truncation_marker = b'\n' ∷ codes "...[truncated]"

-- The loop over `char_indices`: `idx` is where the next character starts.
pub floor_loop : Text → ℕ → ℕ → ℕ → ℕ
floor_loop [] idx max_len boundary = boundary
floor_loop (ch ∷ rest) idx max_len boundary =
    let next = idx + len_utf8 ch in
    if ltb max_len next then boundary else floor_loop rest next max_len next

pub floor_char_boundary : Text → ℕ → ℕ
floor_char_boundary text max_len =
    if leb (text_len text) max_len then text_len text else floor_loop text 0 max_len 0

-- `&text[..n]`, which panics (`none`) unless `n` is a character boundary of `text`.
pub slice_to : Text → ℕ → Option Text
slice_to text zero = some []
slice_to [] (suc n) = none
slice_to (ch ∷ rest) (suc n) =
    if leb (len_utf8 ch) (suc n)
    then Option.map (◌∷◌ ch) (slice_to rest (suc n - len_utf8 ch))
    else none

-- `if cutoff > 0 { buffer.push_str(&text[..cutoff]) }`. A panic would push nothing here.
pub push_slice : Text → Text → ℕ → Text
push_slice buffer text cutoff =
    if ltb 0 cutoff then buffer ++ get_or (slice_to text cutoff) [] else buffer

pub append_truncation_marker : Text → ℕ → Text
append_truncation_marker buffer max_bytes =
    if leb max_bytes (text_len buffer)
    then buffer
    else let remaining = max_bytes - text_len buffer in
      if leb (text_len truncation_marker) remaining
      then buffer ++ truncation_marker
      else push_slice buffer truncation_marker (floor_char_boundary truncation_marker remaining)

-- The branch in which `incoming` does not fit into the `remaining` bytes.
pub append_cut : Text → Text → ℕ → ℕ → Text
append_cut buffer incoming max_bytes remaining =
    let marker_reserve = min (text_len truncation_marker) remaining in
    let cutoff = floor_char_boundary incoming (remaining - marker_reserve) in
    append_truncation_marker (push_slice buffer incoming cutoff) max_bytes

-- The new buffer, and the new value of the flag `already_truncated`.
unfoldable pub append_bounded_text : Text → Text → ℕ → Bool → Text × Bool
append_bounded_text buffer incoming max_bytes already_truncated =
    if is_empty incoming || already_truncated
    then (buffer, already_truncated)
    else if leb max_bytes (text_len buffer)
    then (append_truncation_marker buffer max_bytes, true)
    else let remaining = max_bytes - text_len buffer in
      if leb (text_len incoming) remaining
      then (buffer ++ incoming, already_truncated)
      else (append_cut buffer incoming max_bytes remaining, true)
