-- ===== src/Core/Sessions/Windows.antt =====
-- The session that a window opens on, in crates/seance-core/src/lib.rs, and the list of sessions.
use mathlib.Core.List.{Perm}
use seance.Prelude.{
  ℕ, ◌+◌, ◌≤◌, ◌<◌, ◌^◌, ◌≡◌, refl, ◌∙◌, Bool, true, false, Option, none, some, List, [], ◌∷◌, map,
  arith, is_some, inl, inr, Option-cases, wrapping_add_exact, Result, ok, err, ◌>>=◌, nat_eq,
  ==_iff, ◌||◌,
}
use seance.Prelude.Assoc
use seance.Prelude.Assoc.{All-lookup, lookup-insert, lookup-modify}
use seance.Prelude.Sort.{SortedBy, sort_by_key-SortedBy, sort_by_key-perm}
use seance.Core.Sessions.{
  local, SessionMetadata, SessionRegistry, AppController, WindowTarget, most_recent_or_new,
  new_local, session, WindowError, touch, insert, get, list, register_session, touch_session,
  max_by_seq, most_recent_session_id, spawn_local_session, most_recent_or_spawned, existing_session,
  attached_session, prepare_window,
}
use seance.Core.Sessions.Tracked.{IsTracked, register_session-IsTracked, touch_session-IsTracked}
use seance.Core.Sessions.Recent.{most_recent-touch_session}

max_by_seq-there :
    (m : List (ℕ × SessionMetadata)) (p : ℕ × SessionMetadata)
    → max_by_seq m ≡ some p
    → is_some (Assoc.lookup p.0 m) ≡ true
unfolding max_by_seq Assoc.lookup
max_by_seq-there [] p e = absurd (cc)
max_by_seq-there (x ∷ xs) p e = elim (Option-cases (max_by_seq xs)) [
  | inl n ↦ ground (arith, ==_iff x.0 p.0)
  | inr (best, b) ↦ ground (arith, ==_iff x.0 p.0, max_by_seq-there xs best b)
]

most_recent-there :
    {S : Type 0} (r : SessionRegistry S) (id : ℕ)
    → most_recent_session_id r ≡ some id
    → is_some (Assoc.lookup id r.metadata) ≡ true
unfolding most_recent_session_id
most_recent-there r id e = elim (Option-cases (max_by_seq r.metadata)) [
  | inl n ↦ ground arith
  | inr (best, b) ↦ ground (arith, max_by_seq-there r.metadata best b)
]

module _ {S : Type 0} (id_of : S → ℕ) where
  -- A window can be given a session: its own one is open still, or the shell can be spawned.
  abbrev pub can_open : AppController S → WindowTarget → Option S → Bool
  can_open c most_recent_or_new spawned =
      is_some (most_recent_session_id c.registry) || is_some spawned
  can_open c new_local spawned = is_some spawned
  can_open c (session id) spawned = is_some (get c.registry id)

  -- What holds of the answer before the session is touched.
  abbrev Attached : AppController S → Bool → Result WindowError (AppController S × ℕ) → Type 0
  Attached c can (err e) = can ≡ false
  Attached c can (ok (d, id)) =
      (can ≡ true)
      × IsTracked id_of d
      × (is_some (get d.registry id) ≡ true)
      × (d.access_seq ≤ c.access_seq + 1)

  get-registered :
      (c : AppController S) (s : S)
      → is_some (get (register_session id_of c s local none).registry (id_of s)) ≡ true
  unfolding register_session insert get
  get-registered c s = rw lookup-insert (ground (arith, ==_iff (id_of s) (id_of s)))

  spawned-Attached :
      (c : AppController S) (s : S)
      → c.access_seq + 1 < 2 ^ 64
      → IsTracked id_of c
      → Attached c true (ok (register_session id_of c s local none, id_of s))
  spawned-Attached c s h v = (
    refl,
    register_session-IsTracked id_of c s local none h v,
    get-registered c s,
    unfold register_session in omega (arith, wrapping_add_exact c.access_seq 1 h),
  )

  existing_session-Attached :
      (c : AppController S) (id : ℕ)
      → IsTracked id_of c
      → Attached c (is_some (get c.registry id)) (existing_session id_of c (get c.registry id))
  unfolding existing_session get
  existing_session-Attached c id v = elim (Option-cases (Assoc.lookup id c.registry.sessions)) [
    | inl n ↦ rw n refl
    | inr (s, e) ↦
        let same : id_of s ≡ id = All-lookup _ id s c.registry.sessions v.keyed e in
        rw e (refl, v, rw (same, e) refl, omega arith)
  ]

  most_recent_or_spawned-Attached :
      (c : AppController S) (recent : Option ℕ) (spawned : Option S)
      → ((id : ℕ) → recent ≡ some id → is_some (get c.registry id) ≡ true)
      → c.access_seq + 1 < 2 ^ 64
      → IsTracked id_of c
      → Attached c
          (is_some recent || is_some spawned)
          (most_recent_or_spawned id_of c recent spawned)
  unfolding most_recent_or_spawned spawn_local_session
  most_recent_or_spawned-Attached c (some id) spawned there h v =
      (refl, v, there id refl, omega arith)
  most_recent_or_spawned-Attached c none none there h v = refl
  most_recent_or_spawned-Attached c none (some s) there h v = spawned-Attached c s h v

  most_recent-get :
      (c : AppController S) (id : ℕ)
      → IsTracked id_of c
      → most_recent_session_id c.registry ≡ some id
      → is_some (get c.registry id) ≡ true
  unfolding get
  most_recent-get c id v e = v.same id ∙ most_recent-there c.registry id e

  attached_session-Attached :
      (c : AppController S) (target : WindowTarget) (spawned : Option S)
      → c.access_seq + 1 < 2 ^ 64
      → IsTracked id_of c
      → Attached c (can_open c target spawned) (attached_session id_of c target spawned)
  unfolding attached_session spawn_local_session
  attached_session-Attached c most_recent_or_new spawned h v =
      most_recent_or_spawned-Attached c (most_recent_session_id c.registry) spawned
        (λ id e. most_recent-get c id v e) h v
  attached_session-Attached c new_local none h v = refl
  attached_session-Attached c new_local (some s) h v = spawned-Attached c s h v
  attached_session-Attached c (session id) spawned h v = existing_session-Attached c id v

  -- What holds of the answer.
  abbrev pub Opened : Bool → Result WindowError (AppController S × ℕ) → Type 0
  Opened can (err e) = can ≡ false
  Opened can (ok (d, id)) =
      (can ≡ true)
      × IsTracked id_of d
      × (is_some (get d.registry id) ≡ true)
      × (most_recent_session_id d.registry ≡ some id)

  get-touch_session :
      (c : AppController S) (id other : ℕ)
      → get (touch_session c id).registry other ≡ get c.registry other
  unfolding touch_session touch get
  get-touch_session c id other = refl

  touched_Opened :
      (c d : AppController S) (can : Bool) (id : ℕ)
      → c.access_seq + 2 < 2 ^ 64
      → Attached c can (ok (d, id))
      → Opened can (ok (touch_session d id, id))
  touched_Opened c d can id h (possible, v, there, counted) =
      let room : d.access_seq + 1 < 2 ^ 64 = omega arith in
      (
        possible,
        touch_session-IsTracked id_of d id room v,
        rw get-touch_session there,
        most_recent-touch_session id_of d id v room there,
      )

  Attached-Opened :
      (c : AppController S) (can : Bool) (answer : Result WindowError (AppController S × ℕ))
      → c.access_seq + 2 < 2 ^ 64
      → Attached c can answer
      → Opened can (answer >>= (λ p. ok (touch_session p.0 p.1, p.1)))
  Attached-Opened c can (err e) h a = a
  Attached-Opened c can (ok (d, id)) h a = touched_Opened c d can id h a

-- A window opens exactly when there is a session for it: the most recent one or else a shell that
-- spawns, a new shell, or the session asked for while it is registered. Then the registry is
-- in order still, the attached session is registered, and it is the most recent one.
pub prepare_window_lem :
    {S : Type 0} (id_of : S → ℕ) (c : AppController S) (target : WindowTarget) (spawned : Option S)
    → IsTracked id_of c
    → c.access_seq + 2 < 2 ^ 64
    → Opened id_of (can_open id_of c target spawned) (prepare_window id_of c target spawned)
unfolding prepare_window
prepare_window_lem id_of c target spawned v h =
    Attached-Opened id_of c (can_open id_of c target spawned)
      (attached_session id_of c target spawned) h
      (attached_session-Attached id_of c target spawned (omega arith) v)

-- The list of sessions holds each registered session once and goes up by id.
pub list_lem :
    {S : Type 0} (id_of : S → ℕ) (r : SessionRegistry S)
    → SortedBy id_of (list id_of r) × Perm (list id_of r) (map (λ (p : ℕ × S). p.1) r.sessions)
unfolding list
list_lem id_of r = (sort_by_key-SortedBy id_of _, sort_by_key-perm id_of _)
