-- ===== src/Config/Keybindings/Tests.antt =====
-- The keybindings of crates/seance-config/src/keybindings.rs on concrete inputs.
use seance.Prelude.{
  true, false, none, some, [], ◌∷◌, Text, codes, list_beq, is_whitespace, trim, trim_start,
  trim_end, nat_eq, list_eq, ◌≡◌, ◌↔◌, refl,
}
use seance.Prelude.Assoc
use seance.Prelude.Member.{contains}
use seance.Prelude.Split.{split_on, split_whitespace, drop_empty, join}
use seance.Config.Keybindings.{
  WireKeybindingsConfig, modern, legacy, legacy_action_to_command, normalize_chord_for_platform,
  validate_chord_syntax,
}
use seance.Config.Keybindings.Strokes.{IsChord, validate_chord_syntax_iff}

abbrev chord : Text
chord = codes " Primary-k  ctrl-shift-s"

normalized_chord : normalize_chord_for_platform true chord ≡ codes "cmd-k ctrl-shift-s"
unfolding normalize_chord_for_platform split_whitespace split_on drop_empty is_whitespace join
    list_beq
normalized_chord = refl

valid_chord : validate_chord_syntax false chord ≡ true
unfolding validate_chord_syntax normalize_chord_for_platform split_whitespace split_on drop_empty
    is_whitespace join list_beq contains trim trim_start trim_end
valid_chord = refl

-- A dash cannot be bound: its keystroke has empty components.
dash_invalid : validate_chord_syntax false (codes "ctrl--") ≡ false
unfolding validate_chord_syntax normalize_chord_for_platform split_whitespace split_on drop_empty
    is_whitespace join list_beq contains trim trim_start trim_end
dash_invalid = refl

validate_chord_syntax_iff_example : (validate_chord_syntax true chord ≡ true) ↔ IsChord chord
validate_chord_syntax_iff_example = validate_chord_syntax_iff true chord

abbrev wire : WireKeybindingsConfig
wire = record {
  overrides =
      legacy (codes "cmd-t") (codes "seance_ui_app::NewTerminal")
      ∷ modern (record { id = codes "app.quit"; chord = none; disabled = true })
      ∷ [];
  custom = [];
}

quit_command :
    legacy_action_to_command (codes "seance_ui_app::QuitSeance") ≡ some (codes "app.quit")
unfolding legacy_action_to_command Assoc.lookup list_beq
quit_command = refl
