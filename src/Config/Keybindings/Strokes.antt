-- ===== src/Config/Keybindings/Strokes.antt =====
-- Which chords validate_chord_syntax of crates/seance-config/src/keybindings.rs takes.
use seance.Prelude.{
  Bool, true, false, not, ◌||◌, List, [], ◌∷◌, map, is_empty, All, Text, is_whitespace, list_beq,
  trim, trim-solid, ◌≡◌, ◌↔◌, refl, inl, inr, Bool-cases, arith,
}
use seance.Prelude.Member.{contains}
use seance.Prelude.Split.{
  split_on, split_whitespace, Free, IsWord, split_on-All, split_whitespace-IsWord,
}
use seance.Config.Keybindings.{
  is_dash, ascii_lower, primary_modifier_name, normalize_component,
  normalize_keystroke_for_platform, is_modifier_component, is_valid_key_component,
  validate_components, validate_keystroke, validate_strokes, validate_chord_syntax,
}
use seance.Config.Keybindings.Chords.{
  is_primary, name-Free-blank, component-Free, component-is_empty, keystroke-components,
  chord-strokes,
}

-- A modifier of any platform, or the name that stands for the platform's own.
abbrev pub IsModifier : Text → Type 0
IsModifier m = (is_primary m || is_modifier_component m) ≡ true

-- Modifiers, and a key at the end.
abbrev pub IsKeyLast : List Text → Type 0
IsKeyLast [] = ⊥
IsKeyLast (key ∷ []) = is_empty key ≡ false
IsKeyLast (m ∷ next ∷ rest) = IsModifier m × IsKeyLast (next ∷ rest)

-- At least one keystroke, and each of them is modifiers and a key with dashes between.
abbrev pub IsChord : Text → Type 0
IsChord chord =
    (is_empty (split_whitespace chord) ≡ false)
    × All (λ stroke. IsKeyLast (split_on is_dash stroke)) (split_whitespace chord)

valid_key : (k : Text) → Free is_whitespace k → is_valid_key_component k ≡ not (is_empty k)
unfolding is_valid_key_component
valid_key [] h = unfold trim in refl
valid_key (c ∷ cs) h = rw (trim-solid c cs h.0) refl

empty_modifier : is_modifier_component [] ≡ false
unfolding is_modifier_component contains list_beq
empty_modifier = refl

name-modifier : (macos : Bool) → is_modifier_component (primary_modifier_name macos) ≡ true
unfolding is_modifier_component primary_modifier_name contains list_beq ascii_lower
name-modifier true = refl
name-modifier false = refl

module _ (macos : Bool) where
  normalized_modifier :
      (m : Text)
      → is_modifier_component (normalize_component macos m)
        ≡ (is_primary m || is_modifier_component m)
  unfolding normalize_component
  normalized_modifier m = elim (Bool-cases (is_primary m)) [
    | inl e ↦ rw e (name-modifier macos)
    | inr e ↦ rw e refl
  ]

  modifier-nonempty : (m : Text) → is_modifier_component m ≡ true → is_empty m ≡ false
  modifier-nonempty [] h = absurd (ground (arith, empty_modifier))
  modifier-nonempty (c ∷ cs) h = refl

  components_iff :
      (cs : List Text)
      → All (Free is_whitespace) cs
      → (validate_components (map (normalize_component macos) cs) false ≡ true) ↔ IsKeyLast cs
  unfolding validate_components
  components_iff [] h = ground arith
  components_iff (key ∷ []) h = ground (
    arith,
    component-is_empty macos key,
    valid_key (normalize_component macos key)
        (component-Free macos is_whitespace key (name-Free-blank macos) h.0),
  )
  components_iff (m ∷ next ∷ rest) h = ground (
    arith,
    normalized_modifier m,
    modifier-nonempty (normalize_component macos m),
    components_iff (next ∷ rest) h.1,
  )

  keystroke_iff :
      (k : Text)
      → IsWord k
      → (validate_keystroke (normalize_keystroke_for_platform macos k) ≡ true)
        ↔ IsKeyLast (split_on is_dash k)
  unfolding validate_keystroke
  keystroke_iff k h =
      rw (keystroke-components macos k)
        (components_iff (split_on is_dash k) (split_on-All is_dash is_whitespace k h.1))

  strokes_iff :
      (ks : List Text)
      → All IsWord ks
      → (validate_strokes (map (normalize_keystroke_for_platform macos) ks) ≡ true)
        ↔ All (λ k. IsKeyLast (split_on is_dash k)) ks
  unfolding validate_strokes
  strokes_iff [] h = ground arith
  strokes_iff (k ∷ ks) h = ground (arith, keystroke_iff k h.0, strokes_iff ks h.1)

map-is_empty : {A : Type 0} (f : A → A) (xs : List A) → is_empty (map f xs) ≡ is_empty xs
map-is_empty f [] = refl
map-is_empty f (x ∷ xs) = refl

-- A chord is valid on a platform exactly when it has at least one keystroke and each of its
-- keystrokes, split at its dashes, is some modifiers and then a key that is not empty, `primary`
-- being a modifier too, and the case of letters not counting in a modifier.
pub validate_chord_syntax_iff :
    (macos : Bool) (chord : Text) → (validate_chord_syntax macos chord ≡ true) ↔ IsChord chord
unfolding validate_chord_syntax
validate_chord_syntax_iff macos chord = rw (chord-strokes macos chord) (
    ground (
      arith,
      map-is_empty (normalize_keystroke_for_platform macos) (split_whitespace chord),
      strokes_iff macos (split_whitespace chord) (split_whitespace-IsWord chord),
    ))
