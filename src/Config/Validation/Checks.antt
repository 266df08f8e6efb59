-- ===== src/Config/Validation/Checks.antt =====
-- What each part of the check in crates/seance-config/src/validation.rs lets pass.
use seance.Prelude.{
  Bool, true, false, Option, none, some, List, [], ◌∷◌, map, is_empty, All, Text, trim, list_eq,
  nat_eq, ◌≡◌, ◌↔◌, arith,
}
use seance.Prelude.Member.{contains, Unseen}
use seance.Config.Keybindings.{
  KeybindingOverride, CustomKeybinding, is_builtin_keybinding_id, is_supported_keybinding_command,
  validate_chord_syntax,
}
use seance.Config.Keybindings.Strokes.{validate_chord_syntax_iff}
use seance.Config.Model.{Runtime, VaultRegistryEntry, TerminalConfig, LoggingConfig}
use seance.Config.Validation.{
  key_eq, custom_key, in_range, validate_shell, validate_terminal, validate_logging,
  validate_override_chord, validate_override, validate_overrides, validate_custom, validate_entries,
  validate_open_vault_ids, validate_default_vault_id,
}
use seance.Config.Validation.Rules.{
  IsShell, IsOverrideChord, IsOverride, IsCustom, IsEntry, override_id, entry_id, entry_db_file,
  IsDefaultVault, IsLogging, Passes, ensure_iff, ensure-not_iff, then_iff,
}

module _ {F : Type 0} (r : Runtime F) where
  validate_shell_iff : (o : Option Text) → Passes (validate_shell r o) ↔ IsShell o
  unfolding validate_shell
  validate_shell_iff none = ground arith
  validate_shell_iff (some local_shell) = ensure-not_iff (is_empty (trim local_shell)) _

  abbrev pub IsTerminal : TerminalConfig F → Type 0
  IsTerminal terminal =
      (is_empty (trim terminal.font_family) ≡ false)
      × ((in_range r (r.literal 8) (r.literal 32) terminal.font_size_px ≡ true)
          × ((in_range r (r.literal 10) (r.literal 40) terminal.line_height_px ≡ true)
              × IsShell terminal.local_shell))

  pub validate_terminal_iff : (t : TerminalConfig F) → Passes (validate_terminal r t) ↔ IsTerminal t
  unfolding validate_terminal
  validate_terminal_iff t = then_iff _ _ (ensure-not_iff _ _) (
      then_iff _ _ (ensure_iff _ _)
        (then_iff _ _ (ensure_iff _ _) (validate_shell_iff t.local_shell)))

  pub validate_logging_iff : (l : LoggingConfig) → Passes (validate_logging r l) ↔ IsLogging l
  unfolding validate_logging
  validate_logging_iff l = ground arith

  validate_override_chord_iff :
      (id : Text) (disabled : Bool) (chord : Option Text)
      → Passes (validate_override_chord r id disabled chord) ↔ IsOverrideChord disabled chord
  unfolding validate_override_chord
  validate_override_chord_iff id true none = ground arith
  validate_override_chord_iff id true (some chord) = ground arith
  validate_override_chord_iff id false none = ground arith
  validate_override_chord_iff id false (some chord) =
      let passes = ensure_iff (validate_chord_syntax r.macos chord) _ in
      let valid = validate_chord_syntax_iff r.macos chord in
      (λ h. valid.0 (passes.0 h), λ h. passes.1 (valid.1 h))

  pub validate_overrides_iff :
      (bs : List KeybindingOverride) (seen : List Text)
      → Passes (validate_overrides r seen bs) ↔ All IsOverride bs × Unseen seen (map override_id bs)
  unfolding validate_overrides validate_override
  validate_overrides_iff [] seen = ground arith
  validate_overrides_iff (b ∷ bs) seen =
      let chain = then_iff _ _ (ensure-not_iff (is_empty (trim b.id)) _) (
        then_iff _ _ (ensure_iff (is_builtin_keybinding_id (trim b.id)) _) (
          then_iff _ _ (validate_override_chord_iff b.id b.disabled b.chord) (
            then_iff _ _ (ensure-not_iff (contains seen (trim b.id)) _)
              (validate_overrides_iff bs (trim b.id ∷ seen))))) in
      (
        λ p. let (i, (k, (c, (d, h)))) = chain.0 p in (((i, k, c), h.0), (d, h.1)),
        λ h. chain.1 (h.0.0.0, (h.0.0.1, (h.0.0.2, (h.1.0, (h.0.1, h.1.1))))),
      )

  pub validate_custom_iff :
      (bs : List CustomKeybinding) (seen : List (Text × (Text × Text)))
      → Passes (validate_custom r seen bs) ↔ All IsCustom bs × Unseen seen (map custom_key bs)
  unfolding validate_custom
  validate_custom_iff [] seen = ground arith
  validate_custom_iff (b ∷ bs) seen =
      let valid = validate_chord_syntax_iff r.macos (trim b.chord) in
      let chain = then_iff _ _ (ensure-not_iff (is_empty (trim b.chord)) _) (
        then_iff _ _ (ensure-not_iff (is_empty (trim b.command)) _) (
          then_iff _ _ (ensure_iff (validate_chord_syntax r.macos (trim b.chord)) _) (
            then_iff _ _ (ensure_iff (is_supported_keybinding_command (trim b.command)) _) (
              then_iff _ _ (ensure-not_iff (contains seen (custom_key b)) _)
                (validate_custom_iff bs (custom_key b ∷ seen)))))) in
      (
        λ p. let (a, (c, (v, (k, (d, h))))) = chain.0 p in (((a, c, valid.0 v, k), h.0), (d, h.1)),
        λ h.
            let (a, c, v, k) = h.0.0 in chain.1 (a, (c, (valid.1 v, (k, (h.1.0, (h.0.1, h.1.1)))))),
      )

  abbrev pub entry_name : VaultRegistryEntry → Text
  entry_name entry = r.to_lowercase entry.name

  pub validate_entries_iff :
      (es : List VaultRegistryEntry) (ids names db_files : List Text)
      → Passes (validate_entries r ids names db_files es)
        ↔ All IsEntry es
          × Unseen ids (map entry_id es)
          × Unseen names (map entry_name es)
          × Unseen db_files (map entry_db_file es)
  unfolding validate_entries
  validate_entries_iff [] ids names db_files = ground arith
  validate_entries_iff (e ∷ es) ids names db_files =
      let chain = then_iff _ _ (ensure-not_iff (is_empty e.id) _) (
        then_iff _ _ (ensure-not_iff (is_empty e.name) _) (
          then_iff _ _ (ensure-not_iff (is_empty e.db_file) _) (
            then_iff _ _ (ensure-not_iff (contains ids e.id) _) (
              then_iff _ _ (ensure-not_iff (contains names (r.to_lowercase e.name)) _) (
                then_iff _ _ (ensure-not_iff (contains db_files e.db_file) _) (
                  validate_entries_iff es (e.id ∷ ids) (r.to_lowercase e.name ∷ names)
                    (e.db_file ∷ db_files))))))) in
      (
        λ p.
            let (i, (n, (f, (j, (m, (g, (h, u, v, w))))))) = chain.0 p in
            (((i, n, f), h), (j, u), (m, v), (g, w)),
        λ h.
            let (((i, n, f), a), (j, u), (m, v), (g, w)) = h in
            chain.1 (i, (n, (f, (j, (m, (g, (a, u, v, w))))))),
      )

  pub validate_open_vault_ids_iff :
      (known ids : List Text)
      → Passes (validate_open_vault_ids r known ids) ↔ All (λ id. contains known id ≡ true) ids
  unfolding validate_open_vault_ids
  validate_open_vault_ids_iff known [] = ground arith
  validate_open_vault_ids_iff known (id ∷ ids) =
      then_iff _ _ (ensure_iff (contains known id) _) (validate_open_vault_ids_iff known ids)

  pub validate_default_vault_id_iff :
      (known : List Text) (o : Option Text)
      → Passes (validate_default_vault_id r known o) ↔ IsDefaultVault known o
  unfolding validate_default_vault_id
  validate_default_vault_id_iff known none = ground arith
  validate_default_vault_id_iff known (some id) = ensure_iff (contains known id) _
