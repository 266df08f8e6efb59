-- ===== src/Config/Store.antt =====
-- The config store, crates/seance-config/src/storage.rs. The TOML library is a parameter, the file
-- at the store's path is part of the state, and what the calls on the file system answer is given
-- with each call. The file changes by the last step of a write alone, a rename over the old one.
pub mod Replace
pub mod Reload
pub mod Tests
use seance.Prelude.{
  ℕ, Bool, true, false, not, ◌||◌, Option, none, some, List, [], ◌∷◌, Text, Result, ok, err, ◌>>=◌,
  ◌>>◌, ensure,
}
use seance.Config.Model.{Runtime, AppConfig, default_config, normalized}
use seance.Config.Validation.{ConfigError, read, write, serialize, parse, validate}

-- toml::to_string_pretty and toml::from_str, `none` for an error.
pub record Toml (F : Type 0) : Type 0 where
  pub to_string_pretty : AppConfig F → Option Text
  pub from_str : Text → Option (AppConfig F)

-- Which calls of one write succeed: `has_parent` is whether the path has a parent.
pub record Writes : Type 0 where
  pub has_parent : Bool
  pub create_dir_all : Bool
  pub new_in : Bool
  pub write_all : Bool
  pub flush : Bool
  pub persist : Bool

-- The store's config, and the file at its path.
pub record ConfigStore (F : Type 0) : Type 0 where
  pub config : AppConfig F
  pub file : Option Text

-- `map_err` on an answer that has no value in it.
pub or_error : {F A : Type 0} → ConfigError F → Option A → Result (ConfigError F) A
or_error e none = err e
or_error e (some a) = ok a

module _ {F : Type 0} (r : Runtime F) (toml : Toml F) where
  pub with_defaults : Option Text → ConfigStore F
  with_defaults file = record { config = default_config r; file = file }

  pub parse_config : Text → Result (ConfigError F) (AppConfig F)
  unfolding or_error
  parse_config contents = do
    config ← or_error parse (toml.from_str contents)
    validate r (normalized config)
    ok (normalized config)

  -- `readable` is whether the file, if there is one, can be read.
  pub load_or_default : Option Text → Bool → Result (ConfigError F) (ConfigStore F)
  unfolding parse_config with_defaults
  load_or_default none readable = ok (with_defaults none)
  load_or_default (some contents) readable = do
    ensure readable read
    config ← parse_config contents
    ok (record { config = config; file = some contents })

  -- The new contents of the file.
  pub persist_config : Writes → AppConfig F → Result (ConfigError F) Text
  unfolding or_error
  persist_config io config = do
    ensure (not io.has_parent || io.create_dir_all) write
    serialized ← or_error serialize (toml.to_string_pretty config)
    ensure io.new_in write
    ensure io.write_all write
    ensure io.flush write
    ensure io.persist write
    ok serialized

  pub written : Writes → AppConfig F → Result (ConfigError F) Text
  unfolding persist_config
  written io config = do validate r config; persist_config io config

  pub replaced :
      ConfigStore F
      → AppConfig F
      → Result (ConfigError F) Text
      → ConfigStore F × Result (ConfigError F) (Unit {0})
  replaced store config (ok contents) = (record { config = config; file = some contents }, ok tt)
  replaced store config (err e) = (store, err e)

  pub replace :
      ConfigStore F → Writes → AppConfig F → ConfigStore F × Result (ConfigError F) (Unit {0})
  unfolding replaced written
  replace store io config = replaced store (normalized config) (written io (normalized config))

  pub update :
      ConfigStore F
      → Writes
      → (AppConfig F → AppConfig F)
      → ConfigStore F × Result (ConfigError F) (AppConfig F)
  unfolding replace
  update store io f =
      let (next, answer) = replace store io (f store.config) in
      (next, answer >>= λ _. ok next.config)

  -- One update after another.
  pub run : ConfigStore F → List (Writes × (AppConfig F → AppConfig F)) → ConfigStore F
  unfolding update
  run store [] = store
  run store ((io, f) ∷ rest) = run (update store io f).0 rest
