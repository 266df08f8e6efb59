-- ===== src/Core/Vaults/Tests.antt =====
-- The vaults of crates/seance-core/src/lib.rs at a concrete state. A database is whether it is
-- unlocked, sizes are whole numbers, and no configuration can be printed, so every write fails.
use seance.Prelude.{
  ℕ, Bool, true, false, not, ◌&&◌, leb, none, some, List, [], ◌∷◌, if◌then◌else◌, is_empty, codes,
  trim, trim_start, trim_end, is_whitespace, Text, ok, err, All, list_beq, nat_eq, list_eq, ◌≡◌,
  refl, arith,
}
use seance.Prelude.Assoc
use seance.Prelude.SortBy.{any}
use seance.Config.Model.{pos, Runtime}
use seance.Config.Store.{Toml, Writes, with_defaults}
use seance.Config.Store.Replace.{IsOrdered, with_defaults-IsStored}
use seance.Core.AuthIndex.{HostAuthSummary, private_key, HostReferenceSummary}
use seance.Core.AuthIndex.Refs.{listed}
use seance.Core.AuthIndex.Calls.{empty_index, empty-IsIndexed}
use seance.Core.VaultState.{
  VaultStoreApi, StoreCall, ManagedVaultState, VaultController, name_taken, with_vaults,
  rebuild_index,
}
use seance.Prelude.Member.{contains}
use seance.Core.Vaults.{opened_state, renamed, rename_vault, is_unlocked, delete_vault_permanently}
use seance.Core.Vaults.Current.{empty-Current}
use seance.Core.Vaults.Kept.{IsKept}
use seance.Core.Vaults.Unlocking.{IsGuarded}
use seance.Core.AuthIndex.Hosts.{in_index}
use seance.Core.Vaults.Access.{unlock_vault}
use seance.Core.Vaults.Reread.{
  listed_hosts, listing_result, vault_shows, rebuild_index_lem, unlock_vault_lem,
}
use seance.Core.Vaults.Keeps.{
  VaultCall, creates, renames, closes, locks, unlocks, saves_host, LocksNothing, run, run-IsKept,
}
use seance.Core.Vaults.Rename.{ConfigBy, config_renamed, rename_vault_lem}
use seance.Core.Vaults.Removal.{delete_vault_lem}

abbrev whole : Runtime ℕ
whole = record { le = leb; literal = λ n. n; to_lowercase = λ t. t; macos = false }

whole-IsOrdered : IsOrdered whole
whole-IsOrdered a b h = ground arith

abbrev mute : Toml ℕ
mute = record { to_string_pretty = λ config. none; from_str = λ contents. none }

abbrev server : HostAuthSummary
server = record {
  host_id = codes "h1";
  host_label = codes "Server";
  auth_order = private_key (codes "k1") none ∷ [];
}

abbrev flag : VaultStoreApi Bool
flag = record {
  unlocked = λ s. s;
  list_host_auth_summaries = λ s. ok (server ∷ []);
  load_host_auth_summary = λ s id. if s then ok (some server) else err (codes "locked");
  lock = λ s. false;
}

flag-IsGuarded : IsGuarded flag
flag-IsGuarded true id host shown = refl
flag-IsGuarded false id host shown = ground arith

abbrev works : Writes
works = record {
  has_parent = true;
  create_dir_all = true;
  new_in = true;
  write_all = true;
  flush = true;
  persist = true;
}

abbrev home : ManagedVaultState Bool
home = record {
  entry = record {
    id = codes "v1";
    name = codes "Home";
    db_file = codes "v1.sqlite";
    created_at = pos 0;
    updated_at = pos 0;
  };
  store = some false;
  availability_error = none;
}

abbrev controller : VaultController ℕ Bool
controller = record {
  vaults = (codes "v1", home) ∷ [];
  config = with_defaults whole mute none;
  auth_reference_index = empty_index;
  lifecycle_policy = record {
    keep_running_without_windows = true;
    hide_on_last_window_close = true;
    keep_sessions_alive_without_windows = true;
  };
  device_unlock_attempted = false;
}

controller-IsKept : IsKept whole mute flag controller
controller-IsKept = record {
  stored = with_defaults-IsStored whole mute none whole-IsOrdered;
  indexed = empty-IsIndexed;
  current = empty-Current flag controller.vaults;
}

abbrev unlock : StoreCall Bool (Unit {0})
unlock s = (ok tt, true)

abbrev store_server : StoreCall Bool Text
store_server s = (ok (codes "h1"), s)

abbrev calls : List (VaultCall Bool)
calls =
    creates works (codes "Work") (codes "v2") (pos 1) (some true)
    ∷ unlocks works (codes "v1") none unlock
    ∷ saves_host (codes "v1") store_server
    ∷ renames works (codes "v1") (codes "House") (pos 2)
    ∷ locks (codes "v1")
    ∷ closes works (codes "v2")
    ∷ []

calls-LocksNothing : All (LocksNothing flag) calls
calls-LocksNothing = (tt, ((λ s unlocked. refl), ((λ s unlocked. unlocked), (tt, (tt, (tt, tt))))))

run-IsKept_example : IsKept whole mute flag (run whole mute flag controller calls)
run-IsKept_example =
    run-IsKept whole mute flag controller calls flag-IsGuarded calls-LocksNothing controller-IsKept

-- The vault is among those that are open.
abbrev noted_controller : VaultController ℕ Bool
noted_controller = record controller {
  config = record controller.config {
    config =
        with_vaults (λ v. record v { open_vault_ids = codes "v1" ∷ [] }) controller.config.config;
  };
}

home-opened : opened_state whole mute flag home none ≡ ok home
unfolding opened_state
home-opened = refl

home-noted : contains noted_controller.config.config.vaults.open_vault_ids (codes "v1") ≡ true
unfolding contains any list_beq
home-noted = refl

home-registered : Assoc.lookup (codes "v1") noted_controller.vaults ≡ some home
unfolding Assoc.lookup list_beq
home-registered = refl

unlock_vault_lem_example :
    let answer = unlock_vault whole mute flag noted_controller works (codes "v1") none unlock in
    (answer.1 ≡ listing_result (flag.list_host_auth_summaries true))
    × (Assoc.lookup (codes "v1") answer.0.vaults ≡ some (record home { store = some true }))
    × (in_index answer.0.auth_reference_index (codes "v1") (codes "h1") ≡ (
        if list_beq (codes "v1") (codes "v1")
        then listed_hosts (flag.list_host_auth_summaries true) (codes "h1")
        else in_index noted_controller.auth_reference_index (codes "v1") (codes "h1")))
unlock_vault_lem_example =
    unlock_vault_lem whole mute flag noted_controller works (codes "v1") none unlock home home false
      true (codes "v1") (codes "h1") home-registered home-opened refl home-noted refl refl

rebuild_index_lem_example :
    in_index
      (rebuild_index whole mute flag controller (codes "v1")).0.auth_reference_index
      (codes "v1")
      (codes "h1")
    ≡ (if list_beq (codes "v1") (codes "v1")
        then vault_shows flag (Assoc.lookup (codes "v1") controller.vaults) (codes "h1")
        else in_index controller.auth_reference_index (codes "v1") (codes "h1"))
rebuild_index_lem_example =
    rebuild_index_lem whole mute flag controller (codes "v1") (codes "v1") (codes "h1")

house-nonempty : is_empty (trim (codes "House")) ≡ false
unfolding trim trim_start trim_end is_whitespace
house-nonempty = refl

house-free :
    name_taken (λ id. not (list_beq id (codes "v1"))) (trim (codes "House")) controller.vaults
    ≡ false
unfolding name_taken any list_beq
house-free = refl

home_found : Assoc.lookup (codes "v1") controller.vaults ≡ some home
unfolding Assoc.lookup list_beq
home_found = refl

home-locked : is_unlocked whole mute flag home.store ≡ false
unfolding is_unlocked
home-locked = refl

rename_vault_lem_example :
    let entry = renamed whole mute flag home.entry (trim (codes "House")) (pos 2) in
    let answer =
      rename_vault whole mute flag controller works (codes "v1") (codes "House") (pos 2) in
    (Assoc.lookup (codes "v1") answer.0.vaults ≡ (
      if list_beq (codes "v1") (codes "v1")
      then some (record home { entry = entry })
      else Assoc.lookup (codes "v1") controller.vaults))
    × (answer.0.auth_reference_index ≡ controller.auth_reference_index)
    × ConfigBy whole mute flag controller.config
        (config_renamed whole mute flag controller.config.config (codes "v1") entry)
        answer
rename_vault_lem_example =
    rename_vault_lem whole mute flag controller works (codes "v1") (codes "House") (pos 2) home
      (codes "v1") house-nonempty house-free home_found

abbrev every : HostReferenceSummary → Bool
every host = true

delete_vault_lem_example :
    let d = (delete_vault_permanently whole mute flag controller works (codes "v1") true).0 in
    (Assoc.lookup (codes "v1") d.vaults ≡ (
      if list_beq (codes "v1") (codes "v1")
      then none
      else Assoc.lookup (codes "v1") controller.vaults))
    × (listed every d.auth_reference_index.hosts_for_keys (codes "v1") (codes "k1") (codes "h1") ≡ (
        not (list_beq (codes "v1") (codes "v1"))
        && listed every controller.auth_reference_index.hosts_for_keys
            (codes "v1")
            (codes "k1")
            (codes "h1")))
    × (listed every d.auth_reference_index.hosts_for_credentials
          (codes "v1")
          (codes "k1")
          (codes "h1")
        ≡ (not (list_beq (codes "v1") (codes "v1"))
            && listed every controller.auth_reference_index.hosts_for_credentials
                (codes "v1")
                (codes "k1")
                (codes "h1")))
delete_vault_lem_example =
    delete_vault_lem whole mute flag controller works (codes "v1") true home every (codes "v1")
      (codes "k1") (codes "h1") empty-IsIndexed home_found home-locked
