-- ===== src/Config/Store/Replace.antt =====
-- Writes through the config store, crates/seance-config/src/storage.rs.
use seance.Prelude.{
  ℕ, ◌≤◌, true, Option, some, List, [], ◌∷◌, Text, Result, ok, err, ◌>>=◌, ◌>>◌, trim, trim_start,
  trim_end, is_whitespace, list_beq, nat_eq, list_eq, ◌≡◌, refl, sym, subst, arith,
}
use seance.Prelude.Member.{contains}
use seance.Prelude.Split.{drop_empty}
use seance.Config.Model.{Runtime, AppConfig, default_config, normalized}
use seance.Config.Model.Normal.{normalized_twice}
use seance.Config.Validation.{ConfigError, validate}
use seance.Config.Validation.Valid.{IsValid, validate_iff}
use seance.Config.Store.{
  Toml, Writes, ConfigStore, with_defaults, written, persist_config, or_error, replaced, replace,
  update, run,
}

pub then-ok :
    {E A : Type 0} (m : Result E (Unit {0})) (k : Result E A) (a : A)
    → (m >> k) ≡ ok a
    → (m ≡ ok tt) × (k ≡ ok a)
then-ok (ok tt) k a h = (refl, h)
then-ok (err e) k a h = absurd (cc)

module _ {F : Type 0} (r : Runtime F) (toml : Toml F) where
  -- The store holds a valid configuration in its normal form.
  pub record IsStored (store : ConfigStore F) : Type 0 where
    pub valid : IsValid r store.config
    pub normal : normalized store.config ≡ store.config

  -- What a call of `replace` has done, by its answer.
  abbrev pub Replaced :
      ConfigStore F → AppConfig F → ConfigStore F × Result (ConfigError F) (Unit {0}) → Type 0
  Replaced store config (after, err e) = after ≡ store
  Replaced store config (after, ok done) =
      (after.config ≡ normalized config)
      × IsStored after
      × ((contents : Text) × (toml.to_string_pretty after.config ≡ some contents)
          × (after.file ≡ some contents))

  persisted-some :
      (io : Writes) (config : AppConfig F) (contents : Text)
      → persist_config r toml io config ≡ ok contents
      → toml.to_string_pretty config ≡ some contents
  unfolding persist_config or_error
  persisted-some io config contents h = ground arith

  written-ok :
      (io : Writes) (config : AppConfig F) (contents : Text)
      → written r toml io config ≡ ok contents
      → IsValid r config × (toml.to_string_pretty config ≡ some contents)
  unfolding written
  written-ok io config contents h =
      let (valid, persisted) =
        then-ok (validate r config) (persist_config r toml io config) contents h in
      ((validate_iff r config).0 valid, persisted-some io config contents persisted)

  replaced_lem :
      (store : ConfigStore F) (io : Writes) (config : AppConfig F)
      (answer : Result (ConfigError F) Text)
      → written r toml io (normalized config) ≡ answer
      → Replaced store config (replaced r toml store (normalized config) answer)
  unfolding replaced
  replaced_lem store io config (err e) h = refl
  replaced_lem store io config (ok contents) h =
      let (valid, printed) = written-ok io (normalized config) contents h in
      (refl, record { valid = valid; normal = normalized_twice config }, (contents, printed, refl))

  replace-Replaced :
      (store : ConfigStore F) (io : Writes) (config : AppConfig F)
      → Replaced store config (replace r toml store io config)
  unfolding replace
  replace-Replaced store io config = replaced_lem store io config _ refl

  replace-IsStored :
      (store : ConfigStore F) (config : AppConfig F)
      (answer : ConfigStore F × Result (ConfigError F) (Unit {0}))
      → Replaced store config answer
      → IsStored store
      → IsStored answer.0
  replace-IsStored store config (after, err e) h v = subst IsStored (sym h) v
  replace-IsStored store config (after, ok done) h v = h.1

  pub update-IsStored :
      (store : ConfigStore F) (io : Writes) (f : AppConfig F → AppConfig F)
      → IsStored store
      → IsStored (update r toml store io f).0
  unfolding update
  update-IsStored store io f v =
      replace-IsStored store (f store.config) _ (replace-Replaced store io (f store.config)) v

  -- What a call of `update` has done, by its answer.
  abbrev pub Updated :
      ConfigStore F → AppConfig F → ConfigStore F × Result (ConfigError F) (AppConfig F) → Type 0
  Updated store config (after, err e) = after ≡ store
  Updated store config (after, ok snapshot) =
      (after.config ≡ normalized config) × (snapshot ≡ after.config)

  answered-Updated :
      (store : ConfigStore F) (config : AppConfig F)
      (answer : ConfigStore F × Result (ConfigError F) (Unit {0}))
      → Replaced store config answer
      → Updated store config (answer.0, answer.1 >>= λ done. ok answer.0.config)
  answered-Updated store config (after, err e) h = h
  answered-Updated store config (after, ok done) h = (h.0, refl)

  pub update-Updated :
      (store : ConfigStore F) (io : Writes) (f : AppConfig F → AppConfig F)
      → Updated store (f store.config) (update r toml store io f)
  unfolding update
  update-Updated store io f =
      answered-Updated store (f store.config) _ (replace-Replaced store io (f store.config))

  run-IsStored :
      (changes : List (Writes × (AppConfig F → AppConfig F))) (store : ConfigStore F)
      → IsStored store
      → IsStored (run r toml store changes)
  unfolding run
  run-IsStored [] store v = v
  run-IsStored ((io, f) ∷ rest) store v = run-IsStored rest _ (update-IsStored store io f v)

-- `replace`, whatever the file system does: where it answers ok, the store holds the new
-- configuration in its normal form, it is valid, and the file holds what TOML makes of it; where it
-- answers with an error, the store and the file are as they were.
pub replace_lem :
    {F : Type 0} (r : Runtime F) (toml : Toml F) (store : ConfigStore F) (io : Writes)
    (config : AppConfig F)
    → Replaced r toml store config (replace r toml store io config)
replace_lem r toml store io config = replace-Replaced r toml store io config

-- What the model relies on of f32: literals are ordered as their numbers are.
abbrev pub IsOrdered : {F : Type 0} → Runtime F → Type 0
IsOrdered r = (a b : ℕ) → a ≤ b → r.le (r.literal a) (r.literal b) ≡ true

pub default-IsValid : {F : Type 0} (r : Runtime F) → IsOrdered r → IsValid r (default_config r)
unfolding default_config contains list_beq trim trim_start trim_end is_whitespace
default-IsValid r ordered = record {
  theme = refl;
  terminal = (
    refl,
    (
      ground (arith, ordered 8 13 (omega arith), ordered 13 32 (omega arith)),
      (ground (arith, ordered 10 19 (omega arith), ordered 19 40 (omega arith)), tt),
    ),
  );
  logging = (omega arith, omega arith, omega arith, omega arith);
  overrides = tt;
  override_ids_differ = tt;
  custom = tt;
  custom_keys_differ = tt;
  vaults = record {
    entries = tt;
    ids_differ = tt;
    names_differ = tt;
    db_files_differ = tt;
    open_known = tt;
    default_known = tt;
  };
}

pub default-normal : {F : Type 0} (r : Runtime F) → normalized (default_config r) ≡ default_config r
unfolding normalized default_config drop_empty trim trim_start trim_end is_whitespace
default-normal r = refl

pub with_defaults-IsStored :
    {F : Type 0} (r : Runtime F) (toml : Toml F) (file : Option Text)
    → IsOrdered r
    → IsStored r toml (with_defaults r toml file)
unfolding with_defaults
with_defaults-IsStored r toml file ordered = record {
  valid = default-IsValid r ordered;
  normal = default-normal r;
}

-- A store that starts with the defaults holds a valid configuration in its normal form after any
-- updates, with any answers of the file system, failed updates included.
pub run-with_defaults-IsStored :
    {F : Type 0} (r : Runtime F) (toml : Toml F) (file : Option Text)
    (changes : List (Writes × (AppConfig F → AppConfig F)))
    → IsOrdered r
    → IsStored r toml (run r toml (with_defaults r toml file) changes)
run-with_defaults-IsStored r toml file changes ordered =
    run-IsStored r toml changes _ (with_defaults-IsStored r toml file ordered)
