-- ===== src/Config/Keybindings/Chords.antt =====
-- The syntax of chords, crates/seance-config/src/keybindings.rs.
use seance.Prelude.{
  ℕ, Bool, true, false, List, [], ◌∷◌, ◌++◌, map, is_empty, All, Text, codes, is_whitespace,
  list_beq, ◌≡◌, refl, sym, subst, ap, ◌∙◌, inl, inr, Bool-cases, arith, ==_iff,
}
use seance.Prelude.Split.{
  split_on, split_whitespace, join, Free, IsWord, split_on-join, split_on-Free, split_on-All,
  split_on-nonempty, join-Free, join-split_on, split_whitespace-IsWord, split_whitespace-join,
}
use seance.Config.Keybindings.{
  is_dash, eq_ignore_ascii_case, primary_modifier_name, normalize_component,
  normalize_keystroke_for_platform, normalize_chord_for_platform,
}

abbrev pub is_primary : Text → Bool
is_primary component = eq_ignore_ascii_case component (codes "primary")

pub is_primary-name : (macos : Bool) → is_primary (primary_modifier_name macos) ≡ false
unfolding eq_ignore_ascii_case primary_modifier_name list_beq
is_primary-name true = refl
is_primary-name false = refl

pub name-nonempty : (macos : Bool) → is_empty (primary_modifier_name macos) ≡ false
unfolding primary_modifier_name
name-nonempty true = refl
name-nonempty false = refl

name-Free-dash : (macos : Bool) → Free is_dash (primary_modifier_name macos)
unfolding primary_modifier_name
name-Free-dash true = (refl, (refl, (refl, tt)))
name-Free-dash false = (refl, (refl, (refl, (refl, (refl, tt)))))

pub name-Free-blank : (macos : Bool) → Free is_whitespace (primary_modifier_name macos)
unfolding primary_modifier_name is_whitespace
name-Free-blank true = (refl, (refl, (refl, tt)))
name-Free-blank false = (refl, (refl, (refl, (refl, (refl, tt)))))

is_empty-middle : (w : Text) (c : ℕ) (t : Text) → is_empty (w ++ c ∷ t) ≡ false
is_empty-middle [] c t = refl
is_empty-middle (x ∷ xs) c t = refl

module _ (macos : Bool) where
  pub component-Free :
      (q : ℕ → Bool) (c : Text)
      → Free q (primary_modifier_name macos)
      → Free q c
      → Free q (normalize_component macos c)
  unfolding normalize_component
  component-Free q c n h = elim (Bool-cases (is_primary c)) [ inl e ↦ rw e n | inr e ↦ rw e h ]

  pub components-Free :
      (q : ℕ → Bool) (cs : List Text)
      → Free q (primary_modifier_name macos)
      → All (Free q) cs
      → All (Free q) (map (normalize_component macos) cs)
  components-Free q [] n h = tt
  components-Free q (c ∷ cs) n h = (component-Free q c n h.0, components-Free q cs n h.1)

  component_twice :
      (c : Text)
      → normalize_component macos (normalize_component macos c) ≡ normalize_component macos c
  unfolding normalize_component
  component_twice c = elim (Bool-cases (is_primary c)) [
    | inl e ↦ rw (e, is_primary-name macos) refl
    | inr e ↦ rw (e, e) refl
  ]

  components_twice :
      (cs : List Text)
      → map (normalize_component macos) (map (normalize_component macos) cs)
        ≡ map (normalize_component macos) cs
  components_twice [] = refl
  components_twice (c ∷ cs) = ground (arith, component_twice c, components_twice cs)

  pub component-is_empty : (c : Text) → is_empty (normalize_component macos c) ≡ is_empty c
  unfolding normalize_component
  component-is_empty [] = unfold eq_ignore_ascii_case list_beq in refl
  component-is_empty (x ∷ xs) = elim (Bool-cases (is_primary (x ∷ xs))) [
    | inl e ↦ rw e (name-nonempty macos)
    | inr e ↦ rw e refl
  ]

  join-is_empty :
      (cs : List Text)
      → is_empty (join b'-' (map (normalize_component macos) cs)) ≡ is_empty (join b'-' cs)
  unfolding join
  join-is_empty [] = refl
  join-is_empty (c ∷ []) = component-is_empty c
  join-is_empty (c ∷ d ∷ cs) =
      is_empty-middle (normalize_component macos c) b'-' _ ∙ sym (is_empty-middle c b'-' _)

  -- The components of a normalized keystroke.
  pub keystroke-components :
      (k : Text)
      → split_on is_dash (normalize_keystroke_for_platform macos k)
        ≡ map (normalize_component macos) (split_on is_dash k)
  unfolding normalize_keystroke_for_platform
  keystroke-components k =
      let (w, ws, e) = split_on-nonempty is_dash k in
      let free : All (Free is_dash) (w ∷ ws) =
        subst (All (Free is_dash)) e (split_on-Free is_dash k) in
      rw e (
        split_on-join is_dash b'-' _ _ refl
          (components-Free is_dash (w ∷ ws) (name-Free-dash macos) free))

  keystroke_twice :
      (k : Text)
      → normalize_keystroke_for_platform macos (normalize_keystroke_for_platform macos k)
        ≡ normalize_keystroke_for_platform macos k
  unfolding normalize_keystroke_for_platform
  keystroke_twice k =
      ap (λ cs. join b'-' (map (normalize_component macos) cs)) (keystroke-components k)
      ∙ ap (join b'-') (components_twice (split_on is_dash k))

  pub keystroke-IsWord : (k : Text) → IsWord k → IsWord (normalize_keystroke_for_platform macos k)
  unfolding normalize_keystroke_for_platform
  keystroke-IsWord k (some_char, free) = (
    join-is_empty (split_on is_dash k)
        ∙ ap is_empty (join-split_on is_dash b'-' k (λ c e. (==_iff c b'-').0 e))
        ∙ some_char,
    join-Free is_whitespace b'-' _ (unfold is_whitespace in refl) (
        components-Free is_whitespace _ (name-Free-blank macos)
          (split_on-All is_dash is_whitespace k free)),
  )

  keystrokes-IsWord :
      (ks : List Text)
      → All IsWord ks
      → All IsWord (map (normalize_keystroke_for_platform macos) ks)
  keystrokes-IsWord [] h = tt
  keystrokes-IsWord (k ∷ ks) h = (keystroke-IsWord k h.0, keystrokes-IsWord ks h.1)

  keystrokes_twice :
      (ks : List Text)
      → map
          (normalize_keystroke_for_platform macos)
          (map (normalize_keystroke_for_platform macos) ks)
        ≡ map (normalize_keystroke_for_platform macos) ks
  keystrokes_twice [] = refl
  keystrokes_twice (k ∷ ks) = ground (arith, keystroke_twice k, keystrokes_twice ks)

  -- The strokes of a normalized chord.
  pub chord-strokes :
      (chord : Text)
      → split_whitespace (normalize_chord_for_platform macos chord)
        ≡ map (normalize_keystroke_for_platform macos) (split_whitespace chord)
  unfolding normalize_chord_for_platform
  chord-strokes chord =
      split_whitespace-join _ (keystrokes-IsWord _ (split_whitespace-IsWord chord))

-- A chord that is normalized for a platform is normalized: doing it again changes nothing.
pub normalize_chord_twice :
    (macos : Bool) (chord : Text)
    → normalize_chord_for_platform macos (normalize_chord_for_platform macos chord)
      ≡ normalize_chord_for_platform macos chord
unfolding normalize_chord_for_platform
normalize_chord_twice macos chord =
    ap (λ ks. join 0x20 (map (normalize_keystroke_for_platform macos) ks))
      (chord-strokes macos chord)
    ∙ ap (join 0x20) (keystrokes_twice macos (split_whitespace chord))
