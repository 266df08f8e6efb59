-- ===== src/Lib.antt =====
-- Seance is a terminal workspace with an encrypted vault for SSH hosts. This library is a model of
-- parts of its Rust code, translated definition by definition, with theorems on the model.
--
-- The program's parts and how they interact. A session (crates/seance-terminal) owns a terminal
-- engine; what is typed goes to the shell and to the turn tracker, what the shell prints goes to the
-- engine and to the tracker, and the renderer writes the visible rows into the viewport cache, which
-- the interface reads as snapshots. The controller (crates/seance-core) owns the sessions and the
-- windows and calls the config store, the vault and SSH. The vault (crates/seance-vault) keeps
-- encrypted records in a database, and exchanges them with the vaults of other devices. The
-- interface (crates/seance-ui) calls the controller alone.
--
-- Which file models which part:
--   Terminal/BoundedText.antt - the cutting of long texts in crates/seance-terminal/src/turns.rs:
--     append_bounded_text, append_truncation_marker and floor_char_boundary.
--   Terminal/Turns.antt - TurnTracker of the same file. `track_input_byte` is the body of the loop of
--     track_input_bytes and `sanitize` the loop of track_output_bytes; `&mut self` is a tracker passed
--     and returned. `step` and `run` are sequences of the four calls that sessions make.
--   Terminal/Model.antt - the types of crates/seance-terminal/src/model.rs that these use.
--   Terminal/Viewport.antt - ViewportCache of crates/seance-terminal/src/viewport.rs, with `run` for a
--     sequence of calls. `write_row` and `pad_rows` are the end and the loop of replace_row.
--   Core/Sessions.antt - SessionRegistry, WindowRegistry and the calls of AppController on them, of
--     crates/seance-core/src/lib.rs. The controller sits behind one mutex, so a call is one step.
--     A session is any type with an id; a spawned shell is an argument, `none` where spawning fails.
--   Config/Keybindings.antt - crates/seance-config/src/keybindings.rs. The arms of
--     legacy_action_to_command are a table; `convert_overrides` is the loop of deserialize; whether
--     the build is for macOS is an argument.
--   Config/Model.antt - crates/seance-config/src/model.rs and the defaults. The type of f32 values
--     with its order and literals, and Unicode's to_lowercase, are a parameter, `Runtime`.
--   Config/Validation.antt - AppConfig::validate of crates/seance-config/src/validation.rs, one
--     function for each of its loops.
--   Config/Store.antt - ConfigStore of crates/seance-config/src/storage.rs. TOML is a parameter; the
--     answers of the file system are given with each call, and the file is part of the state.
--   Core/AuthIndex.antt - AuthReferenceIndex of crates/seance-core/src/lib.rs and the calls that change
--     it. `push_refs` and `drop_hosts` are its loops; what a vault answers is an argument.
--   Core/VaultState.antt - ManagedVaultState, the part of AppController's state that the vaults need,
--     and the steps that its calls share. What a database answers is an interface, VaultStoreApi; a
--     call's `?` is `and_then`.
--   Core/Vaults.antt - the calls of AppController on the vaults, of crates/seance-core/src/lib.rs:
--     `rename_state`, `open_state`, `close_state`, `lock_state` and `delete_state` are the rest of a
--     call behind the lookup of the vault.
--   Core/Vaults/Access.antt - the calls there that reach into a vault's database: unlocking, saving
--     and deleting hosts, the rebuild of the whole index. `on_store` is store_mut with the call of the
--     database, whose answer and effect are an argument, a `StoreCall`.
--   Vault/Exec.antt - how a method of crates/seance-vault is written here: a function of the state that
--     gives a result and the state, which stays changed when the result is an error.
--   Vault/Model.antt, Vault/Profiles.antt - crates/seance-vault/src/model.rs, and RecordIdentity of
--     crates/seance-vault/src/lib.rs.
--   Vault/Failure.antt - VaultError and DeviceSecretError, without the messages.
--   Vault/Storage.antt - crates/seance-vault/src/storage.rs: the database is five tables and a list of
--     coming answers, true where SQLite refuses a statement.
--   Vault/Crypto.antt - crates/seance-vault/src/crypto.rs and kdf.rs, and the texts that are
--     authenticated with each envelope.
--   Vault/Session.antt, Vault/Passphrase.antt, Vault/Device.antt - VaultStore of
--     crates/seance-vault/src/lib.rs: opening, status, locking and enrolling; creating, unlocking by
--     passphrase and rotating; unlocking by device. What is drawn at random and each reading of the
--     clock is an argument of the call.
--   Vault/Decrypt.antt, Vault/Records.antt, Vault/Items.antt, Vault/Writes.antt - the records of a
--     vault, of the same file: reading and writing one, the lists and checks of hosts, credentials,
--     keys and port forwards, and the calls that store and delete them.
--   Vault/Keys.antt - the functions on SSH keys of the same file.
--   Vault/Sync.antt - snapshots, deltas and precedence, of the same file. `apply_record` is the body of
--     the loop of apply_delta; `newest` in Vault/Sync/Newest.antt states
--     what a delta leaves.
--   Vault/Sound.antt and below - what holds of a vault between calls; `run_calls` in
--     Vault/Sound/Calls.antt is a sequence of calls of VaultStore.
--
-- Conventions. A String is a list of code points, its length in bytes is the sum of their UTF-8
-- lengths, and a slice off a character's boundary is `none`. A u64 that saturates or wraps has its
-- bound written out (u64_max, 2 ^ 64). A usize that counts what memory holds is unbounded. A HashMap
-- is an association list, whose order stands for the order in which it is walked. An Arc is its
-- contents: what it shares here is never written to.
--
-- Fuel: one function has it, `decimal` of Vault/Crypto.antt, which divides the number by ten until it
-- is less than ten; its fuel is the number and one, and each step takes one and divides. Every other
-- loop is a recursion on a list or on a number that the code counts down; the loop of
-- enforce_history_limit runs on the list that it shortens.
--
-- Not modelled: log lines, the terminal emulator library, threads and channels, drawing and the
-- network, as they are I/O. SQLite's parsing and storage, the cipher, Argon2, base64, serde_json, ssh_key, the
-- keychain and the file system belong to other code: what the program uses of them is a parameter, an
-- argument or, for SQL, a function on tables. The additional data of a cipher is given as the text
-- whose bytes it is.
mod Prelude
pub mod Terminal
pub mod Core
pub mod Vault
pub mod Config
