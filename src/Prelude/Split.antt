-- ===== src/Prelude/Split.antt =====
-- `split`, `split_whitespace` and `join` of Rust's texts.
use Prim.Native.Nat.{ℕ}
use mathlib.Core.Path.{◌≡◌, refl, ap, ◌∙◌, sym}
use mathlib.Core.Logic.{inl, inr}
use mathlib.Core.Bool.{Bool, true, false}
use mathlib.Core.List.{List, [], ◌∷◌, ◌++◌}
use seance.Prelude.Tests.{if◌then◌else◌, Bool-cases}
use seance.Prelude.Lists.{All, All-append, is_empty}
use seance.Prelude.Str.{Text, is_whitespace}

cons_head : ℕ → List Text → List Text
cons_head c [] = (c ∷ []) ∷ []
cons_head c (w ∷ ws) = (c ∷ w) ∷ ws

-- `split(p)`: one piece more than there are separators.
unfoldable pub split_on : (ℕ → Bool) → Text → List Text
unfolding cons_head
split_on p [] = [] ∷ []
split_on p (c ∷ cs) = let rest = split_on p cs in if p c then [] ∷ rest else cons_head c rest

unfoldable pub drop_empty : List Text → List Text
drop_empty [] = []
drop_empty (w ∷ ws) = let rest = drop_empty ws in if is_empty w then rest else w ∷ rest

unfoldable pub split_whitespace : Text → List Text
split_whitespace t = drop_empty (split_on is_whitespace t)

-- `join` with a separator of one character.
unfoldable pub join : ℕ → List Text → Text
join sep [] = []
join sep (w ∷ []) = w
join sep (w ∷ v ∷ ws) = w ++ sep ∷ join sep (v ∷ ws)

-- A text without a separator.
abbrev pub Free : (ℕ → Bool) → Text → Type 0
Free p = All (λ c. p c ≡ false)

module _ (p : ℕ → Bool) where
  split_on-sep :
      (w : Text) (sep : ℕ) (t : Text)
      → Free p w
      → p sep ≡ true
      → split_on p (w ++ sep ∷ t) ≡ w ∷ split_on p t
  unfolding split_on
  split_on-sep [] sep t h s = rw s refl
  split_on-sep (c ∷ cs) sep t h s = rw (h.0, split_on-sep cs sep t h.1 s) refl

  split_on_whole : (w : Text) → Free p w → split_on p w ≡ w ∷ []
  unfolding split_on
  split_on_whole [] h = refl
  split_on_whole (c ∷ cs) h = rw (h.0, split_on_whole cs h.1) refl

  -- Pieces that hold no separator come back from their join.
  pub split_on-join :
      (sep : ℕ) (w : Text) (ws : List Text)
      → p sep ≡ true
      → All (Free p) (w ∷ ws)
      → split_on p (join sep (w ∷ ws)) ≡ w ∷ ws
  unfolding join
  split_on-join sep w [] s h = split_on_whole w h.0
  split_on-join sep w (v ∷ ws) s h =
      split_on-sep w sep _ h.0 s ∙ ap (◌∷◌ w) (split_on-join sep v ws s h.1)

  -- What holds of each character of a text holds of those of its pieces.
  All-cons_head :
      (q : ℕ → Bool) (c : ℕ) (ws : List Text)
      → q c ≡ false
      → All (Free q) ws
      → All (Free q) (cons_head c ws)
  unfolding cons_head
  All-cons_head q c [] e h = ((e, tt), tt)
  All-cons_head q c (w ∷ ws) e h = ((e, h.0), h.1)

  pub split_on-Free : (t : Text) → All (Free p) (split_on p t)
  unfolding split_on
  split_on-Free [] = (tt, tt)
  split_on-Free (c ∷ cs) = elim (Bool-cases (p c)) [
    | inl e ↦ rw e (tt, split_on-Free cs)
    | inr e ↦ rw e (All-cons_head p c (split_on p cs) e (split_on-Free cs))
  ]

  pub split_on-All : (q : ℕ → Bool) (t : Text) → Free q t → All (Free q) (split_on p t)
  unfolding split_on
  split_on-All q [] h = (tt, tt)
  split_on-All q (c ∷ cs) h = elim (Bool-cases (p c)) [
    | inl e ↦ rw e (tt, split_on-All q cs h.1)
    | inr e ↦ rw e (All-cons_head q c (split_on p cs) h.0 (split_on-All q cs h.1))
  ]

  -- There is always a first piece.
  pub split_on-nonempty : (t : Text) → (w : Text) × (ws : List Text) × (split_on p t ≡ w ∷ ws)
  unfolding split_on cons_head
  split_on-nonempty [] = ([], [], refl)
  split_on-nonempty (c ∷ cs) =
      let (w, ws, e) = split_on-nonempty cs in
      elim (Bool-cases (p c)) [
        | inl s ↦ ([], split_on p cs, rw s refl)
        | inr s ↦ (c ∷ w, ws, rw (s, e) refl)
      ]

join-cons_head :
    (sep c : ℕ) (w : Text) (ws : List Text)
    → join sep (cons_head c (w ∷ ws)) ≡ c ∷ join sep (w ∷ ws)
unfolding join cons_head
join-cons_head sep c w [] = refl
join-cons_head sep c w (v ∷ ws) = refl

-- The pieces of a text, joined by the one separator, are the text.
pub join-split_on :
    (p : ℕ → Bool) (sep : ℕ) (t : Text)
    → ((c : ℕ) → p c ≡ true → c ≡ sep)
    → join sep (split_on p t) ≡ t
unfolding split_on join
join-split_on p sep [] h = refl
join-split_on p sep (c ∷ cs) h =
    let (w, ws, e) = split_on-nonempty p cs in
    elim (Bool-cases (p c)) [
      | inl s ↦
          rw (s, e)
            (ap (λ t. sep ∷ t) (ap (join sep) (sym e) ∙ join-split_on p sep cs h)
              ∙ ap (λ d. d ∷ cs) (sym (h c s)))
      | inr s ↦
          rw (s, e)
            (join-cons_head sep c w ws
              ∙ ap (◌∷◌ c) (ap (join sep) (sym e) ∙ join-split_on p sep cs h))
    ]

pub join-Free :
    (q : ℕ → Bool) (sep : ℕ) (ws : List Text)
    → q sep ≡ false
    → All (Free q) ws
    → Free q (join sep ws)
unfolding join
join-Free q sep [] s h = tt
join-Free q sep (w ∷ []) s h = h.0
join-Free q sep (w ∷ v ∷ ws) s h = All-append _ w _ h.0 (s, join-Free q sep (v ∷ ws) s h.1)

-- A word: not empty, and without a blank.
abbrev pub IsWord : Text → Type 0
IsWord w = (is_empty w ≡ false) × Free is_whitespace w

drop_empty-words : (ws : List Text) → All (Free is_whitespace) ws → All IsWord (drop_empty ws)
unfolding drop_empty
drop_empty-words [] h = tt
drop_empty-words ([] ∷ ws) h = drop_empty-words ws h.1
drop_empty-words ((c ∷ cs) ∷ ws) h = ((refl, h.0), drop_empty-words ws h.1)

pub split_whitespace-IsWord : (t : Text) → All IsWord (split_whitespace t)
unfolding split_whitespace
split_whitespace-IsWord t = drop_empty-words _ (split_on-Free is_whitespace t)

drop_empty-id : (ws : List Text) → All IsWord ws → drop_empty ws ≡ ws
unfolding drop_empty
drop_empty-id [] h = refl
drop_empty-id ([] ∷ ws) h = absurd (cc)
drop_empty-id ((c ∷ cs) ∷ ws) h = ap (◌∷◌ (c ∷ cs)) (drop_empty-id ws h.1)

All-Free : (ws : List Text) → All IsWord ws → All (Free is_whitespace) ws
All-Free [] h = tt
All-Free (w ∷ ws) h = (h.0.1, All-Free ws h.1)

pub split_whitespace-join : (ws : List Text) → All IsWord ws → split_whitespace (join 0x20 ws) ≡ ws
unfolding split_whitespace
split_whitespace-join [] h = unfold split_on drop_empty join in refl
split_whitespace-join (w ∷ ws) h =
    ap drop_empty
      (split_on-join is_whitespace 0x20 w ws (unfold is_whitespace in refl) (All-Free (w ∷ ws) h))
    ∙ drop_empty-id (w ∷ ws) h
