-- ===== src/Config/Model.antt =====
-- The configuration and its normal form, crates/seance-config/src/model.rs, with the defaults of
-- crates/seance-config/src/defaults.rs. The type of f32 values is a parameter.
pub mod Normal
use mathlib.Core.Option
use seance.Prelude.{
  ℕ, ◌*◌, Bool, true, false, not, Option, none, some, List, [], ◌∷◌, map, if◌then◌else◌, is_empty,
  Text, codes, trim,
}
use seance.Prelude.Split.{drop_empty}
pub use seance.Prelude.Compare.{ℤ, pos, negsuc}
use seance.Config.Keybindings.{KeybindingOverride, CustomKeybinding, KeybindingsConfig}

-- What the configuration takes from f32: the order, in which NaN is below nothing and above
-- nothing, and the literals `n.0`. And `to_lowercase` of texts, with Unicode's tables, and whether
-- the build is for macOS.
pub record Runtime (F : Type 0) : Type 0 where
  pub le : F → F → Bool
  pub literal : ℕ → F
  pub to_lowercase : Text → Text
  pub macos : Bool

pub record VaultRegistryEntry : Type 0 where
  pub id : Text
  pub name : Text
  pub db_file : Text
  pub created_at : ℤ
  pub updated_at : ℤ

pub record VaultRegistryConfig : Type 0 where
  pub entries : List VaultRegistryEntry
  pub open_vault_ids : List Text
  pub default_target_vault_id : Option Text

pub record AppearanceConfig : Type 0 where
  pub theme : Text

pub record WindowConfig : Type 0 where
  pub keep_running_without_windows : Bool
  pub hide_on_last_window_close : Bool
  pub keep_sessions_alive_without_windows : Bool

pub data MouseTrackingScrollPolicy : Type 0 where
  always_app_first hybrid_shift_wheel_local always_local : MouseTrackingScrollPolicy

pub data MouseTrackingSelectionPolicy : Type 0 where
  disabled shift_drag_local always_local : MouseTrackingSelectionPolicy

pub data TerminalRightClickPolicy : Type 0 where
  copy_selection_or_paste paste_clipboard disabled : TerminalRightClickPolicy

pub record TerminalInteractionConfig : Type 0 where
  pub mouse_tracking_scroll : MouseTrackingScrollPolicy
  pub mouse_tracking_selection : MouseTrackingSelectionPolicy
  pub right_click : TerminalRightClickPolicy

pub record TerminalConfig (F : Type 0) : Type 0 where
  pub local_shell : Option Text
  pub font_family : Text
  pub font_size_px : F
  pub line_height_px : F
  pub interaction : TerminalInteractionConfig

pub data PerfHudDefault : Type 0 where
  off compact expanded : PerfHudDefault

pub data UpdateInstallMode : Type 0 where
  prompted : UpdateInstallMode

pub data UpdateReleaseChannel : Type 0 where
  stable : UpdateReleaseChannel

pub record UpdateConfig : Type 0 where
  pub auto_check : Bool
  pub install_mode : UpdateInstallMode
  pub channel : UpdateReleaseChannel

pub record LoggingConfig : Type 0 where
  pub session_transcript_enabled : Bool
  pub session_transcript_retention_days : ℕ
  pub session_transcript_max_bytes_per_session : ℕ

pub record DebugConfig : Type 0 where
  pub perf_hud_default : PerfHudDefault

pub record AppConfig (F : Type 0) : Type 0 where
  pub appearance : AppearanceConfig
  pub vaults : VaultRegistryConfig
  pub window : WindowConfig
  pub terminal : TerminalConfig F
  pub logging : LoggingConfig
  pub updates : UpdateConfig
  pub debug : DebugConfig
  pub keybindings : KeybindingsConfig

abbrev pub supported_theme_keys : List Text
supported_theme_keys =
    codes "obsidian-smoke"
    ∷ codes "midnight-frost"
    ∷ codes "bone"
    ∷ codes "phosphor"
    ∷ codes "tokyo-night"
    ∷ codes "catppuccin-mocha"
    ∷ codes "rose-pine"
    ∷ codes "dracula"
    ∷ codes "nord"
    ∷ codes "solarized-dark"
    ∷ []

abbrev pub default_appearance : AppearanceConfig
default_appearance = record { theme = codes "obsidian-smoke" }

abbrev pub default_window : WindowConfig
default_window = record {
  keep_running_without_windows = true;
  hide_on_last_window_close = true;
  keep_sessions_alive_without_windows = true;
}

abbrev pub default_interaction : TerminalInteractionConfig
default_interaction = record {
  mouse_tracking_scroll = hybrid_shift_wheel_local;
  mouse_tracking_selection = shift_drag_local;
  right_click = copy_selection_or_paste;
}

abbrev pub default_terminal : {F : Type 0} → Runtime F → TerminalConfig F
default_terminal r = record {
  local_shell = none;
  font_family = codes "Menlo";
  font_size_px = r.literal 13;
  line_height_px = r.literal 19;
  interaction = default_interaction;
}

abbrev pub default_updates : UpdateConfig
default_updates = record { auto_check = true; install_mode = prompted; channel = stable }

abbrev pub default_logging : LoggingConfig
default_logging = record {
  session_transcript_enabled = false;
  session_transcript_retention_days = 7;
  session_transcript_max_bytes_per_session = 64 * 1024 * 1024;
}

-- AppConfig::default(), where the fields without a rule of their own are empty or off.
unfoldable pub default_config : {F : Type 0} → Runtime F → AppConfig F
default_config r = record {
  appearance = default_appearance;
  vaults = record { entries = []; open_vault_ids = []; default_target_vault_id = none };
  window = default_window;
  terminal = default_terminal r;
  logging = default_logging;
  updates = default_updates;
  debug = record { perf_hud_default = off };
  keybindings = record { overrides = []; custom = [] };
}

-- `filter(|value| !value.is_empty())`
pub nonempty : Text → Option Text
nonempty value = if is_empty value then none else some value

-- `.as_deref().map(str::trim).filter(|value| !value.is_empty()).map(ToOwned::to_owned)`
pub trimmed_or_none : Option Text → Option Text
unfolding nonempty
trimmed_or_none none = none
trimmed_or_none (some value) = nonempty (trim value)

pub normalized_entry : VaultRegistryEntry → VaultRegistryEntry
normalized_entry entry = record entry {
  id = trim entry.id;
  name = trim entry.name;
  db_file = trim entry.db_file;
}

pub normalized_override : KeybindingOverride → KeybindingOverride
unfolding trimmed_or_none
normalized_override binding = record binding {
  id = trim binding.id;
  chord = trimmed_or_none binding.chord;
}

pub normalized_custom : CustomKeybinding → CustomKeybinding
normalized_custom binding = record binding {
  chord = trim binding.chord;
  command = trim binding.command;
}

pub normalized_vaults : VaultRegistryConfig → VaultRegistryConfig
unfolding trimmed_or_none normalized_entry
normalized_vaults vaults = record {
  entries = map normalized_entry vaults.entries;
  open_vault_ids = drop_empty (map trim vaults.open_vault_ids);
  default_target_vault_id = trimmed_or_none vaults.default_target_vault_id;
}

pub normalized_keybindings : KeybindingsConfig → KeybindingsConfig
unfolding normalized_override normalized_custom
normalized_keybindings keybindings = record {
  overrides = map normalized_override keybindings.overrides;
  custom = map normalized_custom keybindings.custom;
}

module _ {F : Type 0} where
  pub normalized_terminal : TerminalConfig F → TerminalConfig F
  unfolding trimmed_or_none
  normalized_terminal terminal = record terminal {
    font_family = trim terminal.font_family;
    local_shell = trimmed_or_none terminal.local_shell;
  }

  unfoldable pub normalized : AppConfig F → AppConfig F
  unfolding normalized_vaults normalized_keybindings normalized_terminal
  normalized config = record config {
    appearance = record { theme = trim config.appearance.theme };
    vaults = normalized_vaults config.vaults;
    terminal = normalized_terminal config.terminal;
    keybindings = normalized_keybindings config.keybindings;
  }
