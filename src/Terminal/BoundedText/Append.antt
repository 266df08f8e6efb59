-- ===== src/Terminal/BoundedText/Append.antt =====
-- append_bounded_text of crates/seance-terminal/src/turns.rs: the limit, and what is kept.
use seance.Prelude.{
  ℕ, ◌+◌, ◌-◌, ◌≤◌, ◌<◌, ◌≡◌, refl, sym, ap, ◌∙◌, Bool, true, false, [], ◌∷◌, ◌++◌, append-nil,
  append_assoc, arith, leb, min, Text, text_len, text_len-append, len_utf8, len_utf8_pos,
  if◌then◌else◌,
}
use seance.Terminal.BoundedText.{
  truncation_marker, floor_char_boundary, push_slice, append_truncation_marker, append_cut,
  append_bounded_text,
}
use seance.Terminal.BoundedText.Boundary.{
  fit, fit-le, fit_all, slice_to-floor, floor_char_boundary-fit,
}

text_len-zero : (t : Text) → text_len t ≡ 0 → t ≡ []
unfolding text_len
text_len-zero [] h = refl
text_len-zero (c ∷ cs) h = absurd (omega (arith, len_utf8_pos c))

pub marker_len : text_len truncation_marker ≡ 15
unfolding text_len len_utf8
marker_len = refl

-- Pushing up to a boundary appends what fits.
push_slice-floor :
    (buffer t : Text) (room : ℕ)
    → push_slice buffer t (floor_char_boundary t room) ≡ buffer ++ fit t room
unfolding push_slice
push_slice-floor buffer t room = ground (
  arith,
  slice_to-floor t room,
  floor_char_boundary-fit t room,
  text_len-zero (fit t room),
  append-nil buffer,
)

fit_none : (t : Text) → fit t 0 ≡ []
fit_none t = text_len-zero (fit t 0) (omega (arith, fit-le t 0))

sub-min : (a b : ℕ) → b - min a b ≡ b - a
sub-min a b = omega arith

-- The marker is cut like any other text.
pub append_truncation_marker-fit :
    (buffer : Text) (max_bytes : ℕ)
    → append_truncation_marker buffer max_bytes
      ≡ buffer ++ fit truncation_marker (max_bytes - text_len buffer)
unfolding append_truncation_marker
append_truncation_marker-fit buffer max_bytes =
    let room = max_bytes - text_len buffer in
    ground (
      arith,
      push_slice-floor buffer truncation_marker room,
      fit_all truncation_marker room,
      fit_none truncation_marker,
      append-nil buffer,
    )

-- What a text that does not fit leaves behind: as much of it as goes beside the marker.
pub append_cut-fit :
    (buffer incoming : Text) (max_bytes : ℕ)
    → let remaining = max_bytes - text_len buffer in
      let kept = buffer ++ fit incoming (remaining - text_len truncation_marker) in
      append_cut buffer incoming max_bytes remaining
      ≡ kept ++ fit truncation_marker (max_bytes - text_len kept)
unfolding append_cut
append_cut-fit buffer incoming max_bytes =
    rw (sub-min (text_len truncation_marker) (max_bytes - text_len buffer), push_slice-floor)
      (append_truncation_marker-fit _ max_bytes)

-- A full buffer takes nothing, and no marker either.
fit_full : (t : Text) (k room : ℕ) → room ≤ k → fit t (room - k) ≡ []
fit_full t k room h = let e : room - k ≡ 0 = omega arith in rw e (fit_none t)

full_buffer :
    (buffer incoming : Text) (max_bytes : ℕ)
    → max_bytes ≤ text_len buffer
    → buffer ++ fit incoming (max_bytes - text_len buffer - 15) ≡ buffer
full_buffer buffer incoming max_bytes h =
    rw (fit_full incoming 15 (max_bytes - text_len buffer) (omega arith)) (append-nil buffer)

full_marker :
    (buffer : Text) (max_bytes : ℕ)
    → max_bytes ≤ text_len buffer
    → append_truncation_marker buffer max_bytes ≡ buffer
full_marker buffer max_bytes h =
    rw (append_truncation_marker-fit, fit_full truncation_marker (text_len buffer) max_bytes h)
      (append-nil buffer)

text_len-cons_pos : (c : ℕ) (cs : Text) → 0 < text_len (c ∷ cs)
unfolding text_len
text_len-cons_pos c cs = omega (arith, len_utf8_pos c)

-- What is kept of the buffer and of a text that is cut.
abbrev pub kept : Text → Text → ℕ → Text
kept buffer incoming max_bytes = buffer ++ fit incoming (max_bytes - text_len buffer - 15)

-- `append_bounded_text` on a buffer within its limit that was not cut before: what fits is
-- appended whole and the flag stays false; what does not is cut to leave 15 bytes for the marker,
-- the marker itself is cut at the limit, and the flag becomes true.
pub append_bounded_text_lem :
    (buffer incoming : Text) (max_bytes : ℕ)
    → text_len buffer ≤ max_bytes
    → append_bounded_text buffer incoming max_bytes false ≡ (
        if leb (text_len buffer + text_len incoming) max_bytes
        then (buffer ++ incoming, false)
        else (
          kept buffer incoming max_bytes
              ++ fit truncation_marker (max_bytes - text_len (kept buffer incoming max_bytes)),
          true,
        ))
unfolding append_bounded_text
append_bounded_text_lem buffer [] max_bytes h = unfold text_len in ground (arith, append-nil buffer)
append_bounded_text_lem buffer (c ∷ cs) max_bytes h = ground (
  arith,
  text_len-cons_pos c cs,
  full_buffer buffer (c ∷ cs) max_bytes,
  full_marker buffer max_bytes,
  fit_full truncation_marker (text_len buffer) max_bytes,
  append-nil buffer,
  append_cut-fit buffer (c ∷ cs) max_bytes,
  marker_len,
)

-- Nothing is appended to a buffer that was cut before.
pub append_bounded_text_cut_before :
    (buffer incoming : Text) (max_bytes : ℕ)
    → append_bounded_text buffer incoming max_bytes true ≡ (buffer, true)
unfolding append_bounded_text
append_bounded_text_cut_before buffer [] max_bytes = refl
append_bounded_text_cut_before buffer (c ∷ cs) max_bytes = refl

-- What is appended, in one piece.
added : Text → Text → ℕ → Text
added buffer incoming max_bytes =
    if leb (text_len buffer + text_len incoming) max_bytes
    then incoming
    else fit incoming (max_bytes - text_len buffer - 15)
      ++ fit truncation_marker (max_bytes - text_len (kept buffer incoming max_bytes))

append_bounded_text-added :
    (buffer incoming : Text) (max_bytes : ℕ)
    → text_len buffer ≤ max_bytes
    → (append_bounded_text buffer incoming max_bytes false).0
      ≡ buffer ++ added buffer incoming max_bytes
unfolding added
append_bounded_text-added buffer incoming max_bytes h =
    let front = fit incoming (max_bytes - text_len buffer - 15) in
    let back = fit truncation_marker (max_bytes - text_len (buffer ++ front)) in
    rw (append_bounded_text_lem buffer incoming max_bytes h)
      (ground (arith, append_assoc buffer front back))

text_len-added :
    (buffer incoming : Text) (max_bytes : ℕ)
    → text_len buffer ≤ max_bytes
    → text_len (buffer ++ added buffer incoming max_bytes) ≤ max_bytes
unfolding added
text_len-added buffer incoming max_bytes h =
    let front = fit incoming (max_bytes - text_len buffer - 15) in
    let back = fit truncation_marker (max_bytes - text_len (buffer ++ front)) in
    ground (
      arith,
      text_len-append buffer incoming,
      text_len-append buffer (front ++ back),
      text_len-append front back,
      text_len-append buffer front,
      fit-le incoming (max_bytes - text_len buffer - 15),
      fit-le truncation_marker (max_bytes - text_len (buffer ++ front)),
    )

-- A buffer within its limit stays within it, whatever is appended and whether or not it was cut
-- before; and what was in the buffer stays at its front.
pub append_bounded_text_within :
    (buffer incoming : Text) (max_bytes : ℕ) (already_truncated : Bool)
    → text_len buffer ≤ max_bytes
    → (text_len (append_bounded_text buffer incoming max_bytes already_truncated).0 ≤ max_bytes)
      × ((added : Text) × ((append_bounded_text buffer incoming max_bytes already_truncated).0
            ≡ buffer ++ added))
append_bounded_text_within buffer incoming max_bytes true h =
    let e = ap (λ r. r.0) (append_bounded_text_cut_before buffer incoming max_bytes) in
    (omega (arith, ap text_len e), ([], e ∙ sym (append-nil buffer)))
append_bounded_text_within buffer incoming max_bytes false h =
    rw (append_bounded_text-added buffer incoming max_bytes h)
      (text_len-added buffer incoming max_bytes h, (added buffer incoming max_bytes, refl))

empty_len : text_len [] ≡ 0
unfolding text_len
empty_len = refl

-- A text too long for an empty buffer is kept up to a boundary and followed by the whole marker,
-- if the limit has room for a marker.
pub append_bounded_text_fresh :
    (incoming : Text) (max_bytes : ℕ)
    → 15 ≤ max_bytes
    → max_bytes < text_len incoming
    → append_bounded_text [] incoming max_bytes false
      ≡ (fit incoming (max_bytes - 15) ++ truncation_marker, true)
append_bounded_text_fresh incoming max_bytes h k =
    let front = fit incoming (max_bytes - 15) in
    let e : max_bytes - text_len [] - 15 ≡ max_bytes - 15 = omega (arith, empty_len) in
    rw (append_bounded_text_lem [] incoming max_bytes (omega (arith, empty_len)), e)
      (ground (
        arith,
        empty_len,
        fit-le incoming (max_bytes - 15),
        fit_all truncation_marker (max_bytes - text_len front),
        marker_len,
      ))
