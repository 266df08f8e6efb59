-- ===== src/Config/Validation.antt =====
-- The check of a configuration, crates/seance-config/src/validation.rs, with the error of the first
-- rule that is broken.
pub mod Rules
pub mod Checks
pub mod Valid
use seance.Prelude.{
  Eq, ℕ, ◌*◌, Bool, true, false, not, ◌&&◌, leb, Option, none, some, List, [], ◌∷◌, map, is_empty,
  Text, codes, trim, Result, ok, err, ◌>>◌, ensure, list_eq, nat_eq, pair_eq,
}
use seance.Prelude.Member.{contains}
use seance.Config.Keybindings.{
  KeybindingContext, app_global, workspace_terminal, workspace_settings, workspace_secure,
  workspace_sftp, palette, vault_modal, confirm_dialog, KeybindingOverride, CustomKeybinding,
  is_builtin_keybinding_id, is_supported_keybinding_command, validate_chord_syntax,
}
use seance.Config.Model.{
  Runtime, VaultRegistryEntry, VaultRegistryConfig, TerminalConfig, LoggingConfig, AppConfig,
  supported_theme_keys,
}

-- The sources of the first four are errors of the file system and of the TOML library.
pub data ConfigError (F : Type 0) : Type 0 where
  read write serialize parse : ConfigError F
  invalid_theme empty_field : Text → ConfigError F
  out_of_range : Text → F → F → F → ConfigError F
  out_of_range_int : Text → ℕ → ℕ → ℕ → ConfigError F
  unknown_keybinding_id unknown_keybinding_command invalid_keybinding_chord : Text → ConfigError F
  invalid_keybinding_override duplicate_keybinding_override_id : Text → ConfigError F
  duplicate_custom_keybinding : Text → Text → Text → ConfigError F
  duplicate_vault_id duplicate_vault_name duplicate_vault_db_file : Text → ConfigError F
  unknown_open_vault_id unknown_default_vault_id : Text → ConfigError F

-- `format!("{:?}", context)`
pub context_name : KeybindingContext → Text
context_name app_global = codes "AppGlobal"
context_name workspace_terminal = codes "WorkspaceTerminal"
context_name workspace_settings = codes "WorkspaceSettings"
context_name workspace_secure = codes "WorkspaceSecure"
context_name workspace_sftp = codes "WorkspaceSftp"
context_name palette = codes "Palette"
context_name vault_modal = codes "VaultModal"
context_name confirm_dialog = codes "ConfirmDialog"

pub custom_key : CustomKeybinding → Text × (Text × Text)
custom_key binding = (trim binding.chord, (trim binding.command, context_name binding.context))

abbrev pub text_eq : Eq Text
text_eq = list_eq

instance abbrev pub key_eq : Eq (Text × (Text × Text))
key_eq = pair_eq ⦃d = text_eq⦄ ⦃e = pair_eq ⦃d = text_eq⦄ ⦃e = text_eq⦄⦄

module _ {F : Type 0} (r : Runtime F) where
  abbrev Checked : Type 0
  Checked = Result (ConfigError F) (Unit {0})

  -- `RangeInclusive::contains`
  abbrev pub in_range : F → F → F → Bool
  in_range min max value = r.le min value && r.le value max

  pub validate_shell : Option Text → Checked
  validate_shell none = ok tt
  validate_shell (some local_shell) =
      ensure (not (is_empty (trim local_shell))) (empty_field (codes "terminal.local_shell"))

  pub validate_terminal : TerminalConfig F → Checked
  unfolding validate_shell
  validate_terminal terminal = do
    ensure (not (is_empty (trim terminal.font_family))) (empty_field (codes "terminal.font_family"))
    ensure (in_range (r.literal 8) (r.literal 32) terminal.font_size_px) (
        out_of_range (codes "terminal.font_size_px") terminal.font_size_px (r.literal 8)
          (r.literal 32))
    ensure (in_range (r.literal 10) (r.literal 40) terminal.line_height_px) (
        out_of_range (codes "terminal.line_height_px") terminal.line_height_px (r.literal 10)
          (r.literal 40))
    validate_shell terminal.local_shell

  pub validate_logging : LoggingConfig → Checked
  validate_logging logging = do
    ensure
        (leb 1 logging.session_transcript_retention_days
          && leb logging.session_transcript_retention_days 365)
        (out_of_range_int (codes "logging.session_transcript_retention_days")
          logging.session_transcript_retention_days 1 365)
    ensure
        (leb 1024 logging.session_transcript_max_bytes_per_session
          && leb logging.session_transcript_max_bytes_per_session (1024 * 1024 * 1024))
        (out_of_range_int (codes "logging.session_transcript_max_bytes_per_session")
          logging.session_transcript_max_bytes_per_session 1024 (1024 * 1024 * 1024))

  -- The match on `(binding.disabled, binding.chord)`.
  pub validate_override_chord : Text → Bool → Option Text → Checked
  validate_override_chord id true (some chord) = err (invalid_keybinding_override id)
  validate_override_chord id true none = ok tt
  validate_override_chord id false none = err (invalid_keybinding_override id)
  validate_override_chord id false (some chord) =
      ensure (validate_chord_syntax r.macos chord) (invalid_keybinding_chord chord)

  pub validate_override : KeybindingOverride → Checked
  unfolding validate_override_chord
  validate_override binding = validate_override_chord binding.id binding.disabled binding.chord

  -- The loop over the overrides, with the ids seen.
  pub validate_overrides : List Text → List KeybindingOverride → Checked
  unfolding validate_override
  validate_overrides seen [] = ok tt
  validate_overrides seen (binding ∷ rest) = do
    ensure (not (is_empty (trim binding.id))) (empty_field (codes "keybindings.overrides.id"))
    ensure (is_builtin_keybinding_id (trim binding.id)) (unknown_keybinding_id (trim binding.id))
    validate_override binding
    ensure (not (contains seen (trim binding.id)))
        (duplicate_keybinding_override_id (trim binding.id))
    validate_overrides (trim binding.id ∷ seen) rest

  -- The loop over the custom keybindings, with the keys seen.
  pub validate_custom : List (Text × (Text × Text)) → List CustomKeybinding → Checked
  unfolding custom_key
  validate_custom seen [] = ok tt
  validate_custom seen (binding ∷ rest) = do
    ensure (not (is_empty (trim binding.chord))) (empty_field (codes "keybindings.custom.chord"))
    ensure (not (is_empty (trim binding.command)))
        (empty_field (codes "keybindings.custom.command"))
    ensure (validate_chord_syntax r.macos (trim binding.chord))
        (invalid_keybinding_chord (trim binding.chord))
    ensure (is_supported_keybinding_command (trim binding.command))
        (unknown_keybinding_command (trim binding.command))
    ensure (not (contains seen (custom_key binding))) (
        duplicate_custom_keybinding (trim binding.chord) (trim binding.command)
          (context_name binding.context))
    validate_custom (custom_key binding ∷ seen) rest

  -- The loop over the vaults, with the ids, lower-case names and files seen.
  pub validate_entries : List Text → List Text → List Text → List VaultRegistryEntry → Checked
  validate_entries ids names db_files [] = ok tt
  validate_entries ids names db_files (entry ∷ rest) = do
    ensure (not (is_empty entry.id)) (empty_field (codes "vaults.entries.id"))
    ensure (not (is_empty entry.name)) (empty_field (codes "vaults.entries.name"))
    ensure (not (is_empty entry.db_file)) (empty_field (codes "vaults.entries.db_file"))
    ensure (not (contains ids entry.id)) (duplicate_vault_id entry.id)
    ensure (not (contains names (r.to_lowercase entry.name))) (duplicate_vault_name entry.name)
    ensure (not (contains db_files entry.db_file)) (duplicate_vault_db_file entry.db_file)
    validate_entries (entry.id ∷ ids) (r.to_lowercase entry.name ∷ names) (entry.db_file ∷ db_files)
        rest

  pub validate_open_vault_ids : List Text → List Text → Checked
  validate_open_vault_ids known [] = ok tt
  validate_open_vault_ids known (vault_id ∷ rest) = do
    ensure (contains known vault_id) (unknown_open_vault_id vault_id)
    validate_open_vault_ids known rest

  pub validate_default_vault_id : List Text → Option Text → Checked
  validate_default_vault_id known none = ok tt
  validate_default_vault_id known (some vault_id) =
      ensure (contains known vault_id) (unknown_default_vault_id vault_id)

  -- After its loop `known_vault_ids` is the set of the ids of all vaults.
  pub validate_vaults : VaultRegistryConfig → Checked
  unfolding validate_entries validate_open_vault_ids validate_default_vault_id
  validate_vaults vaults =
      let known = map (λ (entry : VaultRegistryEntry). entry.id) vaults.entries in
      do
        validate_entries [] [] [] vaults.entries
        validate_open_vault_ids known vaults.open_vault_ids
        validate_default_vault_id known vaults.default_target_vault_id

  unfoldable pub validate : AppConfig F → Checked
  unfolding validate_terminal validate_logging validate_overrides validate_custom validate_vaults
  validate config = do
    ensure (contains supported_theme_keys config.appearance.theme)
        (invalid_theme config.appearance.theme)
    validate_terminal config.terminal
    validate_logging config.logging
    validate_overrides [] config.keybindings.overrides
    validate_custom [] config.keybindings.custom
    validate_vaults config.vaults
