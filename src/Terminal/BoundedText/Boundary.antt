-- ===== src/Terminal/BoundedText/Boundary.antt =====
-- floor_char_boundary of crates/seance-terminal/src/turns.rs against the longest prefix of a text
-- that fits into a number of bytes.
use mathlib.Core.Option
use seance.Prelude.{
  All, Bool-cases, inl, inr, ℕ, ◌+◌, ◌-◌, ◌≤◌, ◌≡◌, refl, sym, ap, subst, ◌∙◌, some, [], ◌∷◌, ◌++◌,
  arith, leb, Text, len_utf8, text_len, len_utf8_pos, if◌then◌else◌,
}
use seance.Terminal.BoundedText.{floor_loop, floor_char_boundary, slice_to}

-- The longest prefix of at most `room` bytes, and what is left of the text behind it.
pub fit : Text → ℕ → Text
fit [] room = []
fit (c ∷ cs) room = if leb (len_utf8 c) room then c ∷ fit cs (room - len_utf8 c) else []

pub leftover : Text → ℕ → Text
leftover [] room = []
leftover (c ∷ cs) room = if leb (len_utf8 c) room then leftover cs (room - len_utf8 c) else c ∷ cs

pub fit-leftover : (t : Text) (room : ℕ) → t ≡ fit t room ++ leftover t room
unfolding fit leftover
fit-leftover [] room = refl
fit-leftover (c ∷ cs) room = ground (arith, fit-leftover cs (room - len_utf8 c))

pub fit-le : (t : Text) (room : ℕ) → text_len (fit t room) ≤ room
unfolding fit text_len
fit-le [] room = omega arith
fit-le (c ∷ cs) room = ground (arith, fit-le cs (room - len_utf8 c))

pub fit_all : (t : Text) (room : ℕ) → text_len t ≤ room → fit t room ≡ t
unfolding fit text_len
fit_all [] room h = refl
fit_all (c ∷ cs) room h = ground (arith, fit_all cs (room - len_utf8 c))

-- No prefix that fits is longer.
fit_longest :
    (front back : Text) (room : ℕ)
    → text_len front ≤ room
    → text_len front ≤ text_len (fit (front ++ back) room)
unfolding fit text_len
fit_longest [] back room h = omega arith
fit_longest (c ∷ cs) back room h = ground (arith, fit_longest cs back (room - len_utf8 c))

-- The loop stands at `idx`, which is also the last boundary that it saw.
floor_loop-fit :
    (t : Text) (idx max_len : ℕ)
    → idx ≤ max_len
    → floor_loop t idx max_len idx ≡ idx + text_len (fit t (max_len - idx))
unfolding floor_loop fit text_len
floor_loop-fit [] idx max_len h = omega arith
floor_loop-fit (c ∷ cs) idx max_len h = ground (arith, floor_loop-fit cs (idx + len_utf8 c) max_len)

pub floor_char_boundary-fit :
    (t : Text) (max_len : ℕ) → floor_char_boundary t max_len ≡ text_len (fit t max_len)
unfolding floor_char_boundary
floor_char_boundary-fit t max_len = ground (arith, fit_all t max_len, floor_loop-fit t 0 max_len)

slice_to-cons :
    (c : ℕ) (cs : Text) (k : ℕ)
    → slice_to (c ∷ cs) (len_utf8 c + k) ≡ Option.map (◌∷◌ c) (slice_to cs k)
unfolding slice_to
slice_to-cons c cs k = ground (arith, len_utf8_pos c)

slice_to-front : (front back : Text) → slice_to (front ++ back) (text_len front) ≡ some front
unfolding text_len
slice_to-front [] back = unfold slice_to in refl
slice_to-front (c ∷ cs) back =
    slice_to-cons c (cs ++ back) (text_len cs) ∙ ap (Option.map (◌∷◌ c)) (slice_to-front cs back)

pub slice_to-floor :
    (t : Text) (max_len : ℕ) → slice_to t (floor_char_boundary t max_len) ≡ some (fit t max_len)
slice_to-floor t max_len = rw floor_char_boundary-fit (
    subst (λ u. slice_to u (text_len (fit t max_len)) ≡ some (fit t max_len))
      (sym (fit-leftover t max_len)) (slice_to-front (fit t max_len) (leftover t max_len)))

-- `n` bytes of `text` end at a character boundary: they are a text of their own.
abbrev pub IsBoundary : Text → ℕ → Type 0
IsBoundary text n = (front : Text) × (back : Text) × (text ≡ front ++ back) × (text_len front ≡ n)

boundary-le-floor :
    (text : Text) (max_len n : ℕ)
    → IsBoundary text n
    → n ≤ max_len
    → n ≤ floor_char_boundary text max_len
boundary-le-floor text max_len n (front, back, split, size) h =
    rw (floor_char_boundary-fit, split) (rw (← size) (fit_longest front back max_len (omega arith)))

-- For each text, limit `max_len` and character boundary `n` of the text up to that limit:
-- `floor_char_boundary text max_len` is a character boundary too, at most `max_len` and at least
-- `n`, and the slice of the text up to there does not panic.
pub floor_char_boundary_greatest :
    (text : Text) (max_len n : ℕ)
    → IsBoundary text n
    → n ≤ max_len
    → IsBoundary text (floor_char_boundary text max_len)
      × (floor_char_boundary text max_len ≤ max_len)
      × (n ≤ floor_char_boundary text max_len)
      × ((front : Text) × (slice_to text (floor_char_boundary text max_len) ≡ some front))
floor_char_boundary_greatest text max_len n boundary h = (
  (
    fit text max_len,
    leftover text max_len,
    fit-leftover text max_len,
    sym (floor_char_boundary-fit text max_len),
  ),
  rw floor_char_boundary-fit (fit-le text max_len),
  boundary-le-floor text max_len n boundary h,
  (fit text max_len, slice_to-floor text max_len),
)

pub All-fit {κ} : (P : ℕ → Type κ) (t : Text) (room : ℕ) → All P t → All P (fit t room)
unfolding fit
All-fit P [] room h = h
All-fit P (c ∷ cs) room h = elim (Bool-cases (leb (len_utf8 c) room)) [
  | inl fits ↦ rw fits (h.0, All-fit P cs (room - len_utf8 c) h.1)
  | inr over ↦ rw over tt
]
