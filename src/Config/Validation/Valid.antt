-- ===== src/Config/Validation/Valid.antt =====
-- A declarative description of the configurations that the check in
-- crates/seance-config/src/validation.rs lets pass.
use seance.Prelude.{true, [], map, All, ok, list_eq, nat_eq, ◌≡◌, ◌↔◌}
use seance.Prelude.Member.{contains, Unique, Unseen-nil_iff}
use seance.Config.Model.{Runtime, VaultRegistryConfig, AppConfig, supported_theme_keys}
use seance.Config.Validation.{key_eq, custom_key, validate_vaults, validate}
use seance.Config.Validation.Rules.{
  IsOverride, IsCustom, IsEntry, override_id, entry_id, entry_db_file, IsDefaultVault, IsLogging,
  Passes, ensure_iff, then_iff,
}
use seance.Config.Validation.Checks.{
  IsTerminal, validate_terminal_iff, validate_logging_iff, validate_overrides_iff,
  validate_custom_iff, entry_name, validate_entries_iff, validate_open_vault_ids_iff,
  validate_default_vault_id_iff,
}

module _ {F : Type 0} (r : Runtime F) where
  pub record IsVaults (vaults : VaultRegistryConfig) : Type 0 where
    pub entries : All IsEntry vaults.entries
    pub ids_differ : Unique (map entry_id vaults.entries)
    pub names_differ : Unique (map (entry_name r) vaults.entries)
    pub db_files_differ : Unique (map entry_db_file vaults.entries)
    pub open_known :
        All (λ id. contains (map entry_id vaults.entries) id ≡ true) vaults.open_vault_ids
    pub default_known : IsDefaultVault (map entry_id vaults.entries) vaults.default_target_vault_id

  pub record IsValid (config : AppConfig F) : Type 0 where
    pub theme : contains supported_theme_keys config.appearance.theme ≡ true
    pub terminal : IsTerminal r config.terminal
    pub logging : IsLogging config.logging
    pub overrides : All IsOverride config.keybindings.overrides
    pub override_ids_differ : Unique (map override_id config.keybindings.overrides)
    pub custom : All IsCustom config.keybindings.custom
    pub custom_keys_differ : Unique (map custom_key config.keybindings.custom)
    pub vaults : IsVaults config.vaults

  validate_vaults_iff : (v : VaultRegistryConfig) → Passes (validate_vaults r v) ↔ IsVaults v
  unfolding validate_vaults
  validate_vaults_iff v =
      let known = map entry_id v.entries in
      let ids = Unseen-nil_iff (map entry_id v.entries) in
      let names = Unseen-nil_iff (map (entry_name r) v.entries) in
      let db_files = Unseen-nil_iff (map entry_db_file v.entries) in
      let chain = then_iff _ _ (validate_entries_iff r v.entries [] [] []) (
        then_iff _ _ (validate_open_vault_ids_iff r known v.open_vault_ids)
          (validate_default_vault_id_iff r known v.default_target_vault_id)) in
      (
        λ p.
            let ((e, i, n, f), (o, d)) = chain.0 p in
            record {
              entries = e;
              ids_differ = ids.0 i;
              names_differ = names.0 n;
              db_files_differ = db_files.0 f;
              open_known = o;
              default_known = d;
            },
        λ v. chain.1 (
          (v.entries, ids.1 v.ids_differ, names.1 v.names_differ, db_files.1 v.db_files_differ),
          (v.open_known, v.default_known),
        ),
      )

-- `validate` lets a configuration pass exactly when its theme is a supported one, its font is
-- named and its sizes and limits are in range, the shell is not blank, each override and custom
-- keybinding is well-formed with a valid chord and a known command, no override id and no custom
-- keybinding stands twice, each vault has an id, a name and a file that no other vault has, names
-- being compared in lower case, and the open vaults and the default one are among the vaults.
pub validate_iff :
    {F : Type 0} (r : Runtime F) (config : AppConfig F)
    → (validate r config ≡ ok tt) ↔ IsValid r config
unfolding validate
validate_iff r config =
    let override_ids = Unseen-nil_iff (map override_id config.keybindings.overrides) in
    let custom_keys = Unseen-nil_iff (map custom_key config.keybindings.custom) in
    let chain =
      then_iff _ _ (ensure_iff (contains supported_theme_keys config.appearance.theme) _) (
        then_iff _ _ (validate_terminal_iff r config.terminal) (
          then_iff _ _ (validate_logging_iff r config.logging) (
            then_iff _ _ (validate_overrides_iff r config.keybindings.overrides []) (
              then_iff _ _ (validate_custom_iff r config.keybindings.custom [])
                (validate_vaults_iff r config.vaults))))) in
    (
      λ p.
          let (th, (te, (lo, ((ov, ids), ((cu, keys), va))))) = chain.0 p in
          record {
            theme = th;
            terminal = te;
            logging = lo;
            overrides = ov;
            override_ids_differ = override_ids.0 ids;
            custom = cu;
            custom_keys_differ = custom_keys.0 keys;
            vaults = va;
          },
      λ v. chain.1 (
        v.theme,
        (
          v.terminal,
          (
            v.logging,
            (
              (v.overrides, override_ids.1 v.override_ids_differ),
              ((v.custom, custom_keys.1 v.custom_keys_differ), v.vaults),
            ),
          ),
        ),
      ),
    )
