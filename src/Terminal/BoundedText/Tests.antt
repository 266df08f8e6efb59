-- ===== src/Terminal/BoundedText/Tests.antt =====
-- Runs of the text helpers of crates/seance-terminal/src/turns.rs, and the theorems at inputs.
use seance.Prelude.{
  ◌≡◌, refl, true, false, none, [], ◌+◌, ◌-◌, ◌∷◌, ◌++◌, arith, Text, codes, text_len, len_utf8,
  leb, if◌then◌else◌,
}
use seance.Terminal.BoundedText.{
  truncation_marker, floor_loop, floor_char_boundary, slice_to, push_slice,
  append_truncation_marker, append_cut, append_bounded_text,
}
use seance.Terminal.BoundedText.Boundary.{fit}
use seance.Terminal.BoundedText.Append.{kept, append_bounded_text_lem}

-- "a", U+FFFD, "b": 1, 3 and 1 bytes.
abbrev lossy : Text
lossy = b'a' ∷ 0xfffd ∷ b'b' ∷ []

floor_inside : floor_char_boundary lossy 3 ≡ 1
unfolding floor_char_boundary floor_loop text_len len_utf8
floor_inside = refl

slice_inside : slice_to lossy 3 ≡ none
unfolding slice_to len_utf8
slice_inside = refl

abbrev long_command : Text
long_command = codes "very-long-command-text"

truncates : append_bounded_text [] long_command 16 false ≡ (b'v' ∷ truncation_marker, true)
unfolding append_bounded_text append_cut push_slice append_truncation_marker floor_char_boundary
    floor_loop slice_to text_len len_utf8
truncates = refl

-- A buffer that is full takes no marker.
full_without_marker :
    append_bounded_text (codes "0123456789abcdef") (codes "g") 16 false
    ≡ (codes "0123456789abcdef", true)
unfolding append_bounded_text append_truncation_marker text_len len_utf8
full_without_marker = refl

append_bounded_text_lem_example : append_bounded_text (codes "ab") long_command 20 false ≡ (
    if leb (text_len (codes "ab") + text_len long_command) 20
    then (codes "ab" ++ long_command, false)
    else (
      kept (codes "ab") long_command 20
          ++ fit truncation_marker (20 - text_len (kept (codes "ab") long_command 20)),
      true,
    ))
unfolding text_len len_utf8
append_bounded_text_lem_example = append_bounded_text_lem (codes "ab") long_command 20 (omega arith)
