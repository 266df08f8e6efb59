-- ===== src/Config/Model/Normal.antt =====
-- The normal form of a configuration, crates/seance-config/src/model.rs.
use seance.Prelude.{
  ℕ, Option, none, some, List, [], ◌∷◌, map, Text, trim, trim_twice, ◌≡◌, refl, ap, arith,
}
use seance.Prelude.Split.{drop_empty}
use seance.Config.Keybindings.{KeybindingOverride, CustomKeybinding, KeybindingsConfig}
use seance.Config.Model.{
  VaultRegistryEntry, VaultRegistryConfig, TerminalConfig, AppConfig, nonempty, trimmed_or_none,
  normalized_entry, normalized_override, normalized_custom, normalized_vaults,
  normalized_keybindings, normalized_terminal, normalized,
}

nonempty_twice : (t : Text) → trim t ≡ t → trimmed_or_none (nonempty t) ≡ nonempty t
unfolding nonempty trimmed_or_none
nonempty_twice [] h = refl
nonempty_twice (c ∷ cs) h = rw h refl

trimmed_twice : (o : Option Text) → trimmed_or_none (trimmed_or_none o) ≡ trimmed_or_none o
unfolding trimmed_or_none
trimmed_twice none = refl
trimmed_twice (some t) = nonempty_twice (trim t) (trim_twice t)

map_twice :
    {A : Type 0} (f : A → A) (xs : List A) → ((x : A) → f (f x) ≡ f x) → map f (map f xs) ≡ map f xs
map_twice f [] h = refl
map_twice f (x ∷ xs) h = ground (arith, h x, map_twice f xs h)

entry_twice : (e : VaultRegistryEntry) → normalized_entry (normalized_entry e) ≡ normalized_entry e
unfolding normalized_entry
entry_twice e = rw (trim_twice, trim_twice, trim_twice) refl

override_twice :
    (b : KeybindingOverride) → normalized_override (normalized_override b) ≡ normalized_override b
unfolding normalized_override
override_twice b = rw (trim_twice, trimmed_twice) refl

custom_twice :
    (b : CustomKeybinding) → normalized_custom (normalized_custom b) ≡ normalized_custom b
unfolding normalized_custom
custom_twice b = rw (trim_twice, trim_twice) refl

drop_empty-cons :
    (c : ℕ) (cs : Text) (ws : List Text) → drop_empty ((c ∷ cs) ∷ ws) ≡ (c ∷ cs) ∷ drop_empty ws
unfolding drop_empty
drop_empty-cons c cs ws = refl

kept_ids :
    (t : Text) (rest : List Text)
    → trim t ≡ t
    → drop_empty (map trim (drop_empty rest)) ≡ drop_empty rest
    → drop_empty (map trim (drop_empty (t ∷ rest))) ≡ drop_empty (t ∷ rest)
unfolding drop_empty
kept_ids [] rest h e = e
kept_ids (c ∷ cs) rest h e = rw h (ap (◌∷◌ (c ∷ cs)) e)

ids_twice :
    (ids : List Text)
    → drop_empty (map trim (drop_empty (map trim ids))) ≡ drop_empty (map trim ids)
ids_twice [] = unfold drop_empty in refl
ids_twice (id ∷ ids) = kept_ids (trim id) (map trim ids) (trim_twice id) (ids_twice ids)

vaults_twice :
    (v : VaultRegistryConfig) → normalized_vaults (normalized_vaults v) ≡ normalized_vaults v
unfolding normalized_vaults
vaults_twice v = ground (
  arith,
  map_twice normalized_entry v.entries entry_twice,
  ids_twice v.open_vault_ids,
  trimmed_twice v.default_target_vault_id,
)

keybindings_twice :
    (k : KeybindingsConfig)
    → normalized_keybindings (normalized_keybindings k) ≡ normalized_keybindings k
unfolding normalized_keybindings
keybindings_twice k = ground (
  arith,
  map_twice normalized_override k.overrides override_twice,
  map_twice normalized_custom k.custom custom_twice,
)

module _ {F : Type 0} where
  terminal_twice :
      (t : TerminalConfig F) → normalized_terminal (normalized_terminal t) ≡ normalized_terminal t
  unfolding normalized_terminal
  terminal_twice t = rw (trim_twice, trimmed_twice) refl

-- A normalized configuration is in normal form: normalizing it again changes nothing.
pub normalized_twice :
    {F : Type 0} (config : AppConfig F) → normalized (normalized config) ≡ normalized config
unfolding normalized
normalized_twice config = ground (
  arith,
  trim_twice config.appearance.theme,
  vaults_twice config.vaults,
  terminal_twice config.terminal,
  keybindings_twice config.keybindings,
)
