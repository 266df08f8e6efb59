-- ===== src/Core/Sessions/Tests.antt =====
-- The sessions of crates/seance-core/src/lib.rs at a concrete state. A session is its own id.
use seance.Prelude.{
  ℕ, ◌≡◌, refl, true, false, none, some, [], arith, is_some, if◌then◌else◌, wrapping_add, nat_eq,
  ◌==◌,
}
use seance.Prelude.Assoc
use seance.Core.Sessions
use seance.Core.Sessions.{
  SessionKind, local, remote, SessionOrigin, SessionMetadata, SessionRegistry, AppController,
  WindowTarget, most_recent_or_new, new_local, session, get, list, register_session, touch_session,
  close_session, most_recent_session_id, prepare_window, touch, insert, remove, bump_access_seq,
}
use seance.Core.Sessions.Tracked.{IsTracked, register_session-IsTracked}
use seance.Core.Sessions.Recent.{register_session_lem}
use seance.Core.Sessions.Windows.{Opened, can_open, prepare_window_lem}

abbrev itself : ℕ → ℕ
itself n = n

abbrev at_start : AppController ℕ
at_start = record {
  registry = record { sessions = []; metadata = [] };
  open_windows = 0;
  lifecycle_policy = record {
    keep_running_without_windows = true;
    hide_on_last_window_close = false;
    keep_sessions_alive_without_windows = true;
  };
  access_seq = 0;
}

at_start-IsTracked : IsTracked itself at_start
at_start-IsTracked = record {
  keyed = tt;
  once = tt;
  once_metadata = tt;
  same = λ id. unfold Assoc.lookup in refl;
  numbered = tt;
}

-- The shell of session 4 is opened, then the remote session 2.
abbrev with_shell : AppController ℕ
with_shell = register_session itself at_start 4 local none

abbrev with_both : AppController ℕ
with_both = register_session itself with_shell 2 remote none

with_shell-IsTracked : IsTracked itself with_shell
with_shell-IsTracked =
    register_session-IsTracked itself at_start 4 local none (omega arith) at_start-IsTracked

with_shell-access_seq : with_shell.access_seq ≡ 1
unfolding register_session bump_access_seq wrapping_add
with_shell-access_seq = refl

with_both-access_seq : with_both.access_seq ≡ 2
unfolding register_session bump_access_seq wrapping_add
with_both-access_seq = refl

with_both-IsTracked : IsTracked itself with_both
with_both-IsTracked =
    register_session-IsTracked itself with_shell 2 remote none
      (omega (arith, with_shell-access_seq)) with_shell-IsTracked

with_both-has : is_some (get with_both.registry 4) ≡ true
unfolding register_session get insert Assoc.insert Assoc.lookup
with_both-has = refl

register_session_lem_example :
    let d = register_session itself with_shell 2 remote none in
    (get d.registry 4 ≡ (if 2 == 4 then some 2 else get with_shell.registry 4))
    × (Sessions.kind d.registry 2 ≡ some remote)
    × (most_recent_session_id d.registry ≡ some 2)
    × IsTracked itself d
register_session_lem_example =
    register_session_lem itself with_shell 2 remote none 4 with_shell-IsTracked
      (omega (arith, with_shell-access_seq))

prepare_window_lem_example :
    Opened itself
      (can_open itself with_both most_recent_or_new none)
      (prepare_window itself with_both most_recent_or_new none)
prepare_window_lem_example =
    prepare_window_lem itself with_both most_recent_or_new none with_both-IsTracked
      (omega (arith, with_both-access_seq))
