-- ===== src/Prelude/Str.antt =====
-- Rust's `str`: a text is the list of its code points, measured in the bytes of UTF-8.
use Prim.Native.Nat.{ℕ, ◌+◌, ◌≤◌, ◌<◌}
use Prim.Native.Char.{code}
use Prim.Native.String.{String}
use mathlib.Core.Path.{◌≡◌, refl, ap, ◌∙◌}
use mathlib.Core.Logic.{inl, inr}
use mathlib.Core.Bool.{Bool, false, ◌&&◌, ◌||◌}
use mathlib.Core.List.{List, [], ◌∷◌, ◌++◌}
use native.Mathlib.Omega.{arith}
use seance.Prelude.Tests.{Bool-cases, ltb, leb, ◌==◌, if◌then◌else◌}

abbrev pub Text : Type 0
Text = List ℕ

-- The text of a literal.
abbrev pub codes : String → Text
codes String.[] = []
codes (String.◌∷◌ c s) = code c ∷ codes s

-- char::len_utf8
unfoldable pub len_utf8 : ℕ → ℕ
len_utf8 c = if ltb c 0x80 then 1 else if ltb c 0x800 then 2 else if ltb c 0x10000 then 3 else 4

-- str::len
unfoldable pub text_len : Text → ℕ
text_len [] = 0
text_len (c ∷ cs) = len_utf8 c + text_len cs

-- char::is_whitespace
unfoldable pub is_whitespace : ℕ → Bool
is_whitespace c =
    (leb 0x09 c && leb c 0x0d)
    || (c == 0x20)
    || (c == 0x85)
    || (c == 0xa0)
    || (c == 0x1680)
    || (leb 0x2000 c && leb c 0x200a)
    || (c == 0x2028)
    || (c == 0x2029)
    || (c == 0x202f)
    || (c == 0x205f)
    || (c == 0x3000)

-- A character before the trimmed rest: a blank goes only where nothing is left behind it.
keep_head : ℕ → Text → Text
keep_head c [] = if is_whitespace c then [] else c ∷ []
keep_head c (d ∷ ds) = c ∷ d ∷ ds

-- str::trim_end
unfoldable pub trim_end : Text → Text
unfolding keep_head
trim_end [] = []
trim_end (c ∷ cs) = keep_head c (trim_end cs)

-- str::trim_start
unfoldable pub trim_start : Text → Text
trim_start [] = []
trim_start (c ∷ cs) = let rest = trim_start cs in if is_whitespace c then rest else c ∷ cs

-- str::trim
unfoldable pub trim : Text → Text
unfolding trim_end trim_start
trim t = trim_end (trim_start t)

pub len_utf8_pos : (c : ℕ) → 0 < len_utf8 c
unfolding len_utf8
len_utf8_pos c = ground arith

pub text_len-append : (s t : Text) → text_len (s ++ t) ≡ text_len s + text_len t
unfolding text_len
text_len-append [] t = omega arith
text_len-append (c ∷ cs) t = omega (arith, text_len-append cs t)

pub text_len-trim_end : (t : Text) → text_len (trim_end t) ≤ text_len t
unfolding trim_end text_len
text_len-trim_end [] = omega arith
text_len-trim_end (c ∷ cs) = ground (arith, text_len-trim_end cs)

trim_start-solid : (c : ℕ) (cs : Text) → is_whitespace c ≡ false → trim_start (c ∷ cs) ≡ c ∷ cs
unfolding trim_start
trim_start-solid c cs h = rw h refl

keep_head-solid : (c : ℕ) (t : Text) → is_whitespace c ≡ false → keep_head c t ≡ c ∷ t
unfolding keep_head
keep_head-solid c [] h = rw h refl
keep_head-solid c (d ∷ ds) h = refl

trim_end-solid : (c : ℕ) (cs : Text) → is_whitespace c ≡ false → trim_end (c ∷ cs) ≡ c ∷ trim_end cs
unfolding trim_end
trim_end-solid c cs h = keep_head-solid c (trim_end cs) h

trim_end-keep_head : (c : ℕ) (t : Text) → trim_end t ≡ t → trim_end (keep_head c t) ≡ keep_head c t
unfolding trim_end keep_head
trim_end-keep_head c [] h = elim (Bool-cases (is_whitespace c)) [
  | inl e ↦ rw e refl
  | inr e ↦ rw (e, e) refl
]
trim_end-keep_head c (d ∷ ds) h = rw h refl

trim_end_twice : (t : Text) → trim_end (trim_end t) ≡ trim_end t
unfolding trim_end
trim_end_twice [] = refl
trim_end_twice (c ∷ cs) = trim_end-keep_head c (trim_end cs) (trim_end_twice cs)

-- Blanks that are trimmed at the start do not come back by trimming the end.
trim_start-trim : (t : Text) → trim_start (trim_end (trim_start t)) ≡ trim_end (trim_start t)
unfolding trim_start
trim_start-trim [] = unfold trim_end in refl
trim_start-trim (c ∷ cs) = elim (Bool-cases (is_whitespace c)) [
  | inl e ↦ rw e (trim_start-trim cs)
  | inr e ↦ rw (e, trim_end-solid c cs e) (trim_start-solid c (trim_end cs) e)
]

pub trim_twice : (t : Text) → trim (trim t) ≡ trim t
unfolding trim
trim_twice t = ap trim_end (trim_start-trim t) ∙ trim_end_twice (trim_start t)

-- A text that starts with a character that is no blank keeps it.
pub trim-solid : (c : ℕ) (cs : Text) → is_whitespace c ≡ false → trim (c ∷ cs) ≡ c ∷ trim_end cs
unfolding trim
trim-solid c cs h = ap trim_end (trim_start-solid c cs h) ∙ trim_end-solid c cs h
