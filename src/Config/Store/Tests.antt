-- ===== src/Config/Store/Tests.antt =====
-- The config of crates/seance-config on concrete inputs. Sizes are whole numbers here, and the
-- file format knows one configuration.
use native.Mathlib.Decide.{ℕ_discrete}
use seance.Prelude.{
  ℕ, true, false, leb, Option, none, some, [], ◌∷◌, Text, ok, ◌≡◌, ◌↔◌, arith, list_eq, nat_eq,
}
use seance.Config.Model.{Runtime, AppConfig, default_config}
use seance.Config.Validation.{validate}
use seance.Config.Validation.Valid.{IsValid, validate_iff}
use seance.Config.Store.{Toml, Writes, ConfigStore, with_defaults, load_or_default, replace, run}
use seance.Config.Store.Replace.{
  IsStored, Replaced, IsOrdered, replace_lem, run-with_defaults-IsStored,
}
use seance.Config.Store.Reload.{Loaded, load_or_default_lem}

abbrev whole : Runtime ℕ
whole = record { le = leb; literal = λ n. n; to_lowercase = λ t. t; macos = false }

whole-IsOrdered : IsOrdered whole
whole-IsOrdered a b h = ground arith

config_discrete : Discrete (AppConfig ℕ)
config_discrete = hlevel ℕ_discrete

abbrev factory : AppConfig ℕ
factory = default_config whole

abbrev print {ℓ} : {P : Type ℓ} → Dec P → Option Text
print (yes p) = some []
print (no n) = none

abbrev factory_toml : Toml ℕ
factory_toml = record {
  to_string_pretty = λ config. print (config_discrete config factory);
  from_str = λ contents. some factory;
}

abbrev works : Writes
works = record {
  has_parent = true;
  create_dir_all = true;
  new_in = true;
  write_all = true;
  flush = true;
  persist = true;
}

abbrev empty_store : ConfigStore ℕ
empty_store = with_defaults whole factory_toml none

validate_iff_example : (validate whole factory ≡ ok tt) ↔ IsValid whole factory
validate_iff_example = validate_iff whole factory

replace_lem_example :
    Replaced whole factory_toml empty_store factory
      (replace whole factory_toml empty_store works factory)
replace_lem_example = replace_lem whole factory_toml empty_store works factory

load_or_default_lem_example :
    Loaded whole factory_toml (some []) (load_or_default whole factory_toml (some []) true)
load_or_default_lem_example = load_or_default_lem whole factory_toml (some []) true whole-IsOrdered

run-with_defaults-IsStored_example :
    IsStored whole factory_toml
      (run whole factory_toml (with_defaults whole factory_toml none) ((works, λ c. c) ∷ []))
run-with_defaults-IsStored_example =
    run-with_defaults-IsStored whole factory_toml none ((works, λ c. c) ∷ []) whole-IsOrdered
