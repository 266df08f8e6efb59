-- ===== src/Config/Validation/Rules.antt =====
-- The rules of a valid configuration, and the loops of crates/seance-config/src/validation.rs that
-- check them.
use seance.Prelude.{
  ◌≤◌, ◌*◌, Bool, true, false, not, Option, none, some, List, is_empty, Text, trim, Result, ok, err,
  ◌>>◌, ensure, list_eq, nat_eq, ◌≡◌, ◌↔◌, refl, arith,
}
use seance.Prelude.Member.{contains}
use seance.Config.Keybindings.{
  KeybindingOverride, CustomKeybinding, is_builtin_keybinding_id, is_supported_keybinding_command,
}
use seance.Config.Keybindings.Strokes.{IsChord}
use seance.Config.Model.{VaultRegistryEntry, LoggingConfig}
use seance.Config.Validation.{key_eq}

-- A shell, if one is set, is not blank.
abbrev pub IsShell : Option Text → Type 0
IsShell none = Unit
IsShell (some local_shell) = is_empty (trim local_shell) ≡ false

-- A disabled override has no chord, and any other one has a chord.
abbrev pub IsOverrideChord : Bool → Option Text → Type 0
IsOverrideChord true none = Unit
IsOverrideChord true (some chord) = ⊥
IsOverrideChord false none = ⊥
IsOverrideChord false (some chord) = IsChord chord

abbrev pub IsOverride : KeybindingOverride → Type 0
IsOverride binding =
    (is_empty (trim binding.id) ≡ false)
    × (is_builtin_keybinding_id (trim binding.id) ≡ true)
    × IsOverrideChord binding.disabled binding.chord

abbrev pub IsCustom : CustomKeybinding → Type 0
IsCustom binding =
    (is_empty (trim binding.chord) ≡ false)
    × (is_empty (trim binding.command) ≡ false)
    × IsChord (trim binding.chord)
    × (is_supported_keybinding_command (trim binding.command) ≡ true)

abbrev pub IsEntry : VaultRegistryEntry → Type 0
IsEntry entry =
    (is_empty entry.id ≡ false) × (is_empty entry.name ≡ false) × (is_empty entry.db_file ≡ false)

abbrev pub override_id : KeybindingOverride → Text
override_id binding = trim binding.id

abbrev pub entry_id : VaultRegistryEntry → Text
entry_id entry = entry.id

abbrev pub entry_db_file : VaultRegistryEntry → Text
entry_db_file entry = entry.db_file

abbrev pub IsDefaultVault : List Text → Option Text → Type 0
IsDefaultVault known none = Unit
IsDefaultVault known (some vault_id) = contains known vault_id ≡ true

abbrev pub IsLogging : LoggingConfig → Type 0
IsLogging logging =
    (1 ≤ logging.session_transcript_retention_days)
    × (logging.session_transcript_retention_days ≤ 365)
    × (1024 ≤ logging.session_transcript_max_bytes_per_session)
    × (logging.session_transcript_max_bytes_per_session ≤ 1024 * 1024 * 1024)

-- A check that does not fail.
abbrev pub Passes : {E : Type 0} → Result E (Unit {0}) → Type 0
Passes m = m ≡ ok tt

pub ensure_iff : {E : Type 0} (b : Bool) (e : E) → Passes (ensure b e) ↔ (b ≡ true)
ensure_iff true e = ground arith
ensure_iff false e = ground arith

pub ensure-not_iff : {E : Type 0} (b : Bool) (e : E) → Passes (ensure (not b) e) ↔ (b ≡ false)
ensure-not_iff true e = ground arith
ensure-not_iff false e = ground arith

pub then_iff :
    {E : Type 0} {P Q : Type 0} (m k : Result E (Unit {0}))
    → Passes m ↔ P
    → Passes k ↔ Q
    → Passes (m >> k) ↔ P × Q
then_iff (ok tt) k p q = (λ h. (p.0 refl, q.0 h), λ h. q.1 h.1)
then_iff (err e) k p q = (λ h. absurd (cc), λ h. absurd (ground (arith, p.1 h.0)))
