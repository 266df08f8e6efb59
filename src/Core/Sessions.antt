-- ===== src/Core/Sessions.antt =====
-- SessionRegistry, WindowRegistry and the calls of AppController that change them, of
-- crates/seance-core/src/lib.rs. A terminal session is a parameter with its id, as the trait
-- object is in the source; every call runs under the controller's lock, so calls are atomic.
pub mod Tracked
pub mod Recent
pub mod Windows
pub mod Tests
use mathlib.Core.Option
use seance.Prelude.{
  ℕ, ◌+◌, ◌-◌, Bool, true, false, not, ◌&&◌, Option, none, some, List, [], ◌∷◌, map, leb, ltb,
  if◌then◌else◌, is_empty, is_some, Text, wrapping_add, Result, ok, err, ◌>>=◌, nat_eq,
}
use seance.Prelude.Assoc
use seance.Prelude.Sort

pub data SessionKind : Type 0 where
  local remote : SessionKind

pub record SessionOrigin : Type 0 where
  pub vault_id : Text
  pub host_id : Text
  pub host_label_at_connect : Text

pub record SessionMetadata : Type 0 where
  pub kind : SessionKind
  pub last_access_seq : ℕ
  pub origin : Option SessionOrigin

pub record SessionMetadataSummary : Type 0 where
  pub kind : SessionKind
  pub origin : Option SessionOrigin

pub data PlatformCloseAction : Type 0 where
  hide exit : PlatformCloseAction

pub record LifecyclePolicy : Type 0 where
  pub keep_running_without_windows : Bool
  pub hide_on_last_window_close : Bool
  pub keep_sessions_alive_without_windows : Bool

pub data WindowTarget : Type 0 where
  most_recent_or_new new_local : WindowTarget
  session : ℕ → WindowTarget

pub data WindowError : Type 0 where
  no_session spawn_failed no_longer_available : WindowError

pub record SessionRegistry (S : Type 0) : Type 0 where
  pub sessions : List (ℕ × S)
  pub metadata : List (ℕ × SessionMetadata)

pub record AppController (S : Type 0) : Type 0 where
  pub registry : SessionRegistry S
  pub open_windows : ℕ
  pub lifecycle_policy : LifecyclePolicy
  pub access_seq : ℕ

-- `max_by_key`: of the entries with the greatest key the last one.
pub max_by_seq : List (ℕ × SessionMetadata) → Option (ℕ × SessionMetadata)
max_by_seq [] = none
max_by_seq (entry ∷ rest) = elim (max_by_seq rest) [
  | none ↦ some entry
  | some best ↦ if leb entry.1.last_access_seq best.1.last_access_seq then some best else some entry
]

pub summary : SessionMetadata → SessionMetadataSummary
summary m = record { kind = m.kind; origin = m.origin }

pub set_seq : ℕ → SessionMetadata → SessionMetadata
set_seq seq m = record m { last_access_seq = seq }

module _ {S : Type 0} where
  pub get : SessionRegistry S → ℕ → Option S
  get r id = Assoc.lookup id r.sessions

  pub kind : SessionRegistry S → ℕ → Option SessionKind
  kind r id = Option.map (λ (m : SessionMetadata). m.kind) (Assoc.lookup id r.metadata)

  pub metadata_of : SessionRegistry S → ℕ → Option SessionMetadataSummary
  metadata_of r id = Option.map summary (Assoc.lookup id r.metadata)

  pub touch : SessionRegistry S → ℕ → ℕ → SessionRegistry S
  touch r id seq = record r { metadata = Assoc.modify id (set_seq seq) r.metadata }

  pub remove : SessionRegistry S → ℕ → SessionRegistry S × Bool
  remove r id = (
    record { sessions = Assoc.remove id r.sessions; metadata = Assoc.remove id r.metadata },
    is_some (Assoc.lookup id r.sessions),
  )

  pub most_recent_session_id : SessionRegistry S → Option ℕ
  most_recent_session_id r = Option.map (λ (p : ℕ × SessionMetadata). p.0) (max_by_seq r.metadata)

  pub bump_access_seq : AppController S → AppController S
  bump_access_seq c = record c { access_seq = wrapping_add c.access_seq 1 }

  pub touch_session : AppController S → ℕ → AppController S
  unfolding bump_access_seq
  touch_session c id =
      let bumped = bump_access_seq c in
      record bumped { registry = touch c.registry id bumped.access_seq }

  pub close_session : AppController S → ℕ → AppController S × Bool
  close_session c id =
      let (registry, removed) = remove c.registry id in (record c { registry = registry }, removed)

  pub on_window_opened : AppController S → AppController S
  on_window_opened c = record c { open_windows = c.open_windows + 1 }

  -- `saturating_sub(1)`: subtraction on ℕ stops at 0 too.
  pub on_window_closed : AppController S → AppController S
  on_window_closed c = record c { open_windows = c.open_windows - 1 }

  pub on_last_window_closed : AppController S → PlatformCloseAction
  on_last_window_closed c =
      if c.lifecycle_policy.keep_running_without_windows
        && c.lifecycle_policy.hide_on_last_window_close
      then hide
      else exit

-- What needs a session's id.
module _ {S : Type 0} (id_of : S → ℕ) where
  pub insert : SessionRegistry S → S → SessionKind → Option SessionOrigin → ℕ → SessionRegistry S
  insert r s kind origin seq = record {
    sessions = Assoc.insert (id_of s) s r.sessions;
    metadata = Assoc.insert (id_of s) meta r.metadata;
  }
    where
      meta : SessionMetadata
      meta = record { kind = kind; last_access_seq = seq; origin = origin }

  pub list : SessionRegistry S → List S
  list r = Sort.sort_by_key id_of (map (λ (p : ℕ × S). p.1) r.sessions)

  pub register_session : AppController S → S → SessionKind → Option SessionOrigin → AppController S
  unfolding bump_access_seq
  register_session c s kind origin =
      let bumped = bump_access_seq c in
      record bumped { registry = insert c.registry s kind origin bumped.access_seq }

  -- The spawned shell is an argument, `none` where spawning fails.
  pub spawn_local_session : AppController S → Option S → Result WindowError (AppController S × S)
  spawn_local_session c none = err spawn_failed
  spawn_local_session c (some s) = ok (register_session c s local none, s)

  -- `most_recent_session_id().or_else(|| spawn_local_session().ok())`, with `anyhow!` if both fail.
  pub most_recent_or_spawned :
      AppController S → Option ℕ → Option S → Result WindowError (AppController S × ℕ)
  most_recent_or_spawned c (some id) spawned = ok (c, id)
  most_recent_or_spawned c none spawned = elim (spawn_local_session c spawned) [
    | ok (c', s) ↦ ok (c', id_of s)
    | err e ↦ err no_session
  ]

  pub existing_session : AppController S → Option S → Result WindowError (AppController S × ℕ)
  existing_session c none = err no_longer_available
  existing_session c (some s) = ok (c, id_of s)

  -- The session that the window shows, from `match target`.
  pub attached_session :
      AppController S → WindowTarget → Option S → Result WindowError (AppController S × ℕ)
  unfolding most_recent_or_spawned existing_session
  attached_session c most_recent_or_new spawned =
      most_recent_or_spawned c (most_recent_session_id c.registry) spawned
  attached_session c new_local spawned = do
    (c', s) ← spawn_local_session c spawned
    ok (c', id_of s)
  attached_session c (session id) spawned = existing_session c (get c.registry id)

  -- Of the bootstrap data the attached session alone is kept: the rest is read and not changed.
  pub prepare_window :
      AppController S → WindowTarget → Option S → Result WindowError (AppController S × ℕ)
  prepare_window c target spawned = do
    (c', id) ← attached_session c target spawned
    ok (touch_session c' id, id)
