-- ===== src/Config/Store/Reload.antt =====
-- Reading the config file, crates/seance-config/src/storage.rs.
use seance.Prelude.{
  Bool, true, false, Option, none, some, Text, Result, ok, err, ◌>>=◌, ◌>>◌, ◌≡◌, refl,
}
use seance.Config.Model.{Runtime, AppConfig, normalized}
use seance.Config.Model.Normal.{normalized_twice}
use seance.Config.Validation.{ConfigError, validate}
use seance.Config.Validation.Valid.{IsValid, validate_iff}
use seance.Config.Store.{Toml, ConfigStore, with_defaults, or_error, parse_config, load_or_default}
use seance.Config.Store.Replace.{IsStored, IsOrdered, with_defaults-IsStored}

module _ {F : Type 0} (r : Runtime F) (toml : Toml F) where
  -- What holds of a start, by its answer: a failed one is one of a file that is there.
  abbrev pub Loaded : Option Text → Result (ConfigError F) (ConfigStore F) → Type 0
  Loaded file (err e) = (contents : Text) × (file ≡ some contents)
  Loaded file (ok store) = IsStored r toml store × (store.file ≡ file)

  abbrev Parsed : Result (ConfigError F) (AppConfig F) → Type 0
  Parsed (err e) = Unit
  Parsed (ok config) = IsValid r config × (normalized config ≡ config)

  checked-Parsed :
      (config : AppConfig F) (answer : Result (ConfigError F) (Unit {0}))
      → validate r (normalized config) ≡ answer
      → Parsed (answer >> ok (normalized config))
  checked-Parsed config (err e) h = tt
  checked-Parsed config (ok tt) h =
      ((validate_iff r (normalized config)).0 h, normalized_twice config)

  read-Parsed :
      (wire : Option (AppConfig F))
      → Parsed (
          or_error ConfigError.parse wire >>= λ config.
          validate r (normalized config) >> ok (normalized config))
  unfolding or_error
  read-Parsed none = tt
  read-Parsed (some config) = checked-Parsed config _ refl

  parse_config-Parsed : (contents : Text) → Parsed (parse_config r toml contents)
  unfolding parse_config
  parse_config-Parsed contents = read-Parsed (toml.from_str contents)

  Parsed-Loaded :
      (contents : Text) (answer : Result (ConfigError F) (AppConfig F))
      → Parsed answer
      → Loaded
          (some contents)
          (answer >>= λ config. ok (record { config = config; file = some contents }))
  Parsed-Loaded contents (err e) h = (contents, refl)
  Parsed-Loaded contents (ok config) h = (record { valid = h.0; normal = h.1 }, refl)

-- A start, whatever the file holds: a store that is loaded holds a valid configuration in its
-- normal form and leaves the file as it is; without a file the start does not fail.
pub load_or_default_lem :
    {F : Type 0} (r : Runtime F) (toml : Toml F) (file : Option Text) (readable : Bool)
    → IsOrdered r
    → Loaded r toml file (load_or_default r toml file readable)
unfolding load_or_default with_defaults
load_or_default_lem r toml none readable ordered =
    (with_defaults-IsStored r toml none ordered, refl)
load_or_default_lem r toml (some contents) false ordered = (contents, refl)
load_or_default_lem r toml (some contents) true ordered =
    Parsed-Loaded r toml contents _ (parse_config-Parsed r toml contents)
