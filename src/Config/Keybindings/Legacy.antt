-- ===== src/Config/Keybindings/Legacy.antt =====
-- Reading overrides of the old form, crates/seance-config/src/keybindings.rs.
use seance.Prelude.{
  true, Option, none, some, List, [], ◌∷◌, ◌++◌, All, Text, Result, ok, err, list_beq, nat_eq,
  list_eq, ◌≡◌, refl, sym, ◌∙◌, inl, inr, Option-cases, arith, append-nil, append_assoc,
}
use seance.Prelude.Assoc
use seance.Prelude.Member.{contains}
use seance.Config.Keybindings.{
  KeybindingOverride, CustomKeybinding, KeybindingsConfig, WireOverride, modern, legacy,
  WireKeybindingsConfig, custom_of, legacy_actions, convert_overrides, deserialize,
  legacy_action_to_command, is_supported_keybinding_command,
}

-- The overrides of today's form.
abbrev pub modern_overrides : List WireOverride → List KeybindingOverride
modern_overrides [] = []
modern_overrides (modern binding ∷ rest) = binding ∷ modern_overrides rest
modern_overrides (legacy chord action ∷ rest) = modern_overrides rest

custom_of_action : Text → Option Text → List CustomKeybinding
custom_of_action chord none = []
custom_of_action chord (some command) = custom_of chord command ∷ []

-- The legacy overrides as custom keybindings.
pub legacy_custom : List WireOverride → List CustomKeybinding
unfolding custom_of_action
legacy_custom [] = []
legacy_custom (modern binding ∷ rest) = legacy_custom rest
legacy_custom (legacy chord action ∷ rest) =
    custom_of_action chord (legacy_action_to_command action) ++ legacy_custom rest

-- The first legacy action that no command stands for.
pub unsupported : List WireOverride → Option Text
unsupported [] = none
unsupported (modern binding ∷ rest) = unsupported rest
unsupported (legacy chord action ∷ rest) = elim (legacy_action_to_command action) [
  | none ↦ some action
  | some command ↦ unsupported rest
]

-- What reading gives, with no loop.
pub converted : KeybindingsConfig → List WireOverride → Result Text KeybindingsConfig
converted config wire = elim (unsupported wire) [
  | some action ↦ err action
  | none ↦ ok (record {
    overrides = config.overrides ++ modern_overrides wire;
    custom = config.custom ++ legacy_custom wire;
  })
]

converted-modern :
    (config : KeybindingsConfig) (binding : KeybindingOverride) (rest : List WireOverride)
    → converted (record config { overrides = config.overrides ++ binding ∷ [] }) rest
      ≡ converted config (modern binding ∷ rest)
unfolding converted unsupported legacy_custom
converted-modern config binding rest = elim (Option-cases (unsupported rest)) [
  | inl e ↦ rw (converted, e, append_assoc) refl
  | inr (action, e) ↦ rw (converted, e) refl
]

legacy_custom-some :
    (chord action command : Text) (rest : List WireOverride)
    → legacy_action_to_command action ≡ some command
    → legacy_custom (legacy chord action ∷ rest) ≡ custom_of chord command ∷ legacy_custom rest
unfolding legacy_custom custom_of_action
legacy_custom-some chord action command rest h = rw h refl

unsupported-some :
    (chord action command : Text) (rest : List WireOverride)
    → legacy_action_to_command action ≡ some command
    → unsupported (legacy chord action ∷ rest) ≡ unsupported rest
unfolding unsupported
unsupported-some chord action command rest h = rw (unsupported, h) refl

converted-legacy :
    (config : KeybindingsConfig) (chord action command : Text) (rest : List WireOverride)
    → legacy_action_to_command action ≡ some command
    → converted (record config { custom = config.custom ++ custom_of chord command ∷ [] }) rest
      ≡ converted config (legacy chord action ∷ rest)
unfolding converted
converted-legacy config chord action command rest h = ground (
  arith,
  legacy_custom-some chord action command rest h,
  unsupported-some chord action command rest h,
  append_assoc config.custom (custom_of chord command ∷ []) (legacy_custom rest),
)

converted-unsupported :
    (config : KeybindingsConfig) (chord action : Text) (rest : List WireOverride)
    → legacy_action_to_command action ≡ none
    → converted config (legacy chord action ∷ rest) ≡ err action
unfolding converted unsupported
converted-unsupported config chord action rest h = ground arith

convert_overrides_lem :
    (wire : List WireOverride) (config : KeybindingsConfig)
    → convert_overrides config wire ≡ converted config wire
unfolding convert_overrides
convert_overrides_lem [] config =
    unfold converted unsupported legacy_custom in
    rw (append-nil config.overrides, append-nil config.custom) refl
convert_overrides_lem (modern binding ∷ rest) config =
    convert_overrides_lem rest _ ∙ converted-modern config binding rest
convert_overrides_lem (legacy chord action ∷ rest) config =
    elim (Option-cases (legacy_action_to_command action)) [
      | inl e ↦ rw (convert_overrides, e) (sym (converted-unsupported config chord action rest e))
      | inr (command, e) ↦
          rw (convert_overrides, e)
            (convert_overrides_lem rest _ ∙ converted-legacy config chord action command rest e)
    ]

-- A keybindings section is read exactly when each legacy override has a supported action, and then
-- the overrides of today's form stay in their order and each legacy one becomes a custom
-- keybinding behind the custom ones; otherwise the error names the first action not supported.
pub deserialize_lem :
    (wire : WireKeybindingsConfig)
    → deserialize wire ≡ converted (record { overrides = []; custom = wire.custom }) wire.overrides
unfolding deserialize
deserialize_lem wire = convert_overrides_lem wire.overrides _

arms-supported :
    All (λ (p : Text × Text). is_supported_keybinding_command p.1 ≡ true) legacy_actions
unfolding is_supported_keybinding_command contains list_beq
arms-supported = (refl, (refl, (refl, (refl, (refl, (refl, (refl, (refl, tt))))))))

-- The command that stands for a legacy action is a supported one.
pub legacy_action-supported :
    (action command : Text)
    → legacy_action_to_command action ≡ some command
    → is_supported_keybinding_command command ≡ true
unfolding legacy_action_to_command
legacy_action-supported action command e =
    Assoc.All-lookup (λ p. is_supported_keybinding_command p.1 ≡ true) action command legacy_actions
      arms-supported e
