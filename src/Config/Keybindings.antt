-- ===== src/Config/Keybindings.antt =====
-- Keybindings of crates/seance-config/src/keybindings.rs: commands, the two wire formats of an
-- override, and the syntax of chords.
pub mod Chords
pub mod Strokes
pub mod Legacy
pub mod Tests
use seance.Prelude.{
  ℕ, ◌+◌, Bool, true, false, not, ◌&&◌, ◌||◌, ◌==◌, leb, Option, none, some, List, [], ◌∷◌, ◌++◌,
  map, if◌then◌else◌, is_empty, Text, codes, trim, Result, ok, err, list_beq, nat_eq, list_eq,
}
use seance.Prelude.Assoc
use seance.Prelude.Member.{contains}
use seance.Prelude.Split.{split_on, split_whitespace, join}

abbrev command_app_open_preferences : Text
command_app_open_preferences = codes "app.open_preferences"

abbrev command_app_open_command_palette : Text
command_app_open_command_palette = codes "app.open_command_palette"

abbrev command_session_new_local : Text
command_session_new_local = codes "session.new_local"

abbrev command_session_close_active : Text
command_session_close_active = codes "session.close_active"

abbrev command_debug_toggle_perf_hud : Text
command_debug_toggle_perf_hud = codes "debug.toggle_perf_hud"

abbrev command_window_new : Text
command_window_new = codes "window.new"

abbrev command_app_quit : Text
command_app_quit = codes "app.quit"

abbrev command_app_hide : Text
command_app_hide = codes "app.hide"

abbrev command_session_select_previous : Text
command_session_select_previous = codes "session.select_previous"

abbrev command_session_select_next : Text
command_session_select_next = codes "session.select_next"

abbrev command_session_copy_previous_turn : Text
command_session_copy_previous_turn = codes "session.copy_previous_turn"

-- COMMAND_SESSION_SELECT_SLOT_1 to COMMAND_SESSION_SELECT_SLOT_10.
abbrev command_session_select_slots : List Text
command_session_select_slots =
    codes "session.select_slot_1"
    ∷ codes "session.select_slot_2"
    ∷ codes "session.select_slot_3"
    ∷ codes "session.select_slot_4"
    ∷ codes "session.select_slot_5"
    ∷ codes "session.select_slot_6"
    ∷ codes "session.select_slot_7"
    ∷ codes "session.select_slot_8"
    ∷ codes "session.select_slot_9"
    ∷ codes "session.select_slot_10"
    ∷ []

abbrev pub builtin_keybinding_ids : List Text
builtin_keybinding_ids =
    command_app_open_preferences ∷ command_app_open_command_palette ∷ command_session_new_local
    ∷ command_session_close_active ∷ command_debug_toggle_perf_hud ∷ command_window_new
    ∷ command_app_quit ∷ command_app_hide ∷ command_session_select_previous
    ∷ command_session_select_next ∷ command_session_copy_previous_turn
    ∷ command_session_select_slots

pub data KeybindingContext : Type 0 where
  app_global workspace_terminal workspace_settings workspace_secure : KeybindingContext
  workspace_sftp palette vault_modal confirm_dialog : KeybindingContext

pub record KeybindingOverride : Type 0 where
  pub id : Text
  pub chord : Option Text
  pub disabled : Bool

pub record CustomKeybinding : Type 0 where
  pub chord : Text
  pub command : Text
  pub context : KeybindingContext

pub record KeybindingsConfig : Type 0 where
  pub overrides : List KeybindingOverride
  pub custom : List CustomKeybinding

unfoldable pub is_builtin_keybinding_id : Text → Bool
is_builtin_keybinding_id id = contains builtin_keybinding_ids id

-- SUPPORTED_KEYBINDING_COMMANDS is BUILTIN_KEYBINDING_IDS.
unfoldable pub is_supported_keybinding_command : Text → Bool
is_supported_keybinding_command command = contains builtin_keybinding_ids command

pub command_default_context : Text → KeybindingContext
command_default_context command =
    if list_beq command_session_select_previous command
      || list_beq command_session_select_next command
      || list_beq command_session_copy_previous_turn command
      || contains command_session_select_slots command
    then workspace_terminal
    else app_global

-- The arms of the match in legacy_action_to_command, LEGACY_ACTION_APP_OPEN_PREFERENCES first.
abbrev pub legacy_actions : List (Text × Text)
legacy_actions =
    (codes "seance_ui_app::OpenPreferences", command_app_open_preferences)
    ∷ (codes "seance_ui_app::OpenCommandPalette", command_app_open_command_palette)
    ∷ (codes "seance_ui_app::NewTerminal", command_session_new_local)
    ∷ (codes "seance_ui_app::CloseActiveSession", command_session_close_active)
    ∷ (codes "seance_ui_app::TogglePerfHud", command_debug_toggle_perf_hud)
    ∷ (codes "seance_ui_app::OpenNewWindow", command_window_new)
    ∷ (codes "seance_ui_app::QuitSeance", command_app_quit)
    ∷ (codes "seance_ui_app::HideSeance", command_app_hide)
    ∷ []

pub legacy_action_to_command : Text → Option Text
legacy_action_to_command action = Assoc.lookup action legacy_actions

-- What serde reads: an override of today's form or a legacy one.
pub data WireOverride : Type 0 where
  modern : KeybindingOverride → WireOverride
  legacy : Text → Text → WireOverride

pub record WireKeybindingsConfig : Type 0 where
  pub overrides : List WireOverride
  pub custom : List CustomKeybinding

pub custom_of : Text → Text → CustomKeybinding
custom_of chord command = record {
  chord = chord;
  command = command;
  context = command_default_context command;
}

-- The loop over the overrides. The error names the action.
pub convert_overrides : KeybindingsConfig → List WireOverride → Result Text KeybindingsConfig
convert_overrides config [] = ok config
convert_overrides config (modern binding ∷ rest) =
    convert_overrides (record config { overrides = config.overrides ++ binding ∷ [] }) rest
convert_overrides config (legacy chord action ∷ rest) = elim (legacy_action_to_command action) [
  | none ↦ err action
  | some command ↦
      convert_overrides (record config { custom = config.custom ++ custom_of chord command ∷ [] })
        rest
]

pub deserialize : WireKeybindingsConfig → Result Text KeybindingsConfig
deserialize wire =
    convert_overrides (record { overrides = []; custom = wire.custom }) wire.overrides

-- char::to_ascii_lowercase
pub ascii_lower : ℕ → ℕ
ascii_lower c = if leb 0x41 c && leb c 0x5a then c + 32 else c

pub eq_ignore_ascii_case : Text → Text → Bool
unfolding ascii_lower
eq_ignore_ascii_case a b = list_beq (map ascii_lower a) (map ascii_lower b)

-- `cfg!(target_os = "macos")` is an argument.
pub primary_modifier_name : Bool → Text
primary_modifier_name macos = if macos then codes "cmd" else codes "super"

abbrev pub is_dash : ℕ → Bool
is_dash c = c == b'-'

pub normalize_component : Bool → Text → Text
unfolding primary_modifier_name eq_ignore_ascii_case
normalize_component macos component =
    if eq_ignore_ascii_case component (codes "primary")
    then primary_modifier_name macos
    else component

pub normalize_keystroke_for_platform : Bool → Text → Text
unfolding normalize_component
normalize_keystroke_for_platform macos keystroke =
    join b'-' (map (normalize_component macos) (split_on is_dash keystroke))

unfoldable pub normalize_chord_for_platform : Bool → Text → Text
unfolding normalize_keystroke_for_platform
normalize_chord_for_platform macos chord =
    join 0x20 (map (normalize_keystroke_for_platform macos) (split_whitespace chord))

abbrev modifiers : List Text
modifiers =
    codes "ctrl"
    ∷ codes "alt"
    ∷ codes "shift"
    ∷ codes "fn"
    ∷ codes "cmd"
    ∷ codes "super"
    ∷ codes "win"
    ∷ codes "secondary"
    ∷ []

pub is_modifier_component : Text → Bool
unfolding ascii_lower
is_modifier_component component = contains modifiers (map ascii_lower component)

pub is_valid_key_component : Text → Bool
is_valid_key_component component = not (is_empty (trim component))

-- The loop over the components, with `saw_key`.
pub validate_components : List Text → Bool → Bool
unfolding is_modifier_component is_valid_key_component
validate_components [] saw_key = saw_key
validate_components (component ∷ []) saw_key =
    if is_empty component then false else is_valid_key_component component
validate_components (component ∷ next ∷ rest) saw_key =
    let later = validate_components (next ∷ rest) saw_key in
    if is_empty component
    then false
    else if not (is_modifier_component component)
    then false
    else later

pub validate_keystroke : Text → Bool
unfolding validate_components
validate_keystroke keystroke = validate_components (split_on is_dash keystroke) false

-- `strokes.iter().all(..)`
pub validate_strokes : List Text → Bool
unfolding validate_keystroke
validate_strokes [] = true
validate_strokes (stroke ∷ strokes) = validate_keystroke stroke && validate_strokes strokes

unfoldable pub validate_chord_syntax : Bool → Text → Bool
unfolding normalize_chord_for_platform validate_strokes
validate_chord_syntax macos chord =
    let strokes = split_whitespace (normalize_chord_for_platform macos chord) in
    if is_empty strokes then false else validate_strokes strokes
