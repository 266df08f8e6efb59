-- ===== src/Core/Sessions/Recent.antt =====
-- Which session of crates/seance-core/src/lib.rs is the most recent one.
use seance.Prelude.{
  ℕ, ◌+◌, ◌≤◌, ◌<◌, ◌^◌, ◌≡◌, refl, ap, ◌∙◌, true, Option, none, some, List, [], ◌∷◌, arith,
  is_some, All, All-map, inl, inr, Option-cases, Bool-cases, if◌then◌else◌, wrapping_add,
  wrapping_add_exact, nat_eq, ◌==◌, ==_iff,
}
use seance.Prelude.Assoc
use seance.Prelude.Assoc.{Distinct, lookup-insert, lookup-remove, lookup-modify}
use seance.Core.Sessions
use seance.Core.Sessions.{
  SessionKind, SessionOrigin, SessionMetadata, SessionRegistry, AppController, set_seq, touch,
  remove, insert, get, register_session, touch_session, close_session, bump_access_seq, max_by_seq,
  most_recent_session_id,
}
use seance.Core.Sessions.Tracked.{IsTracked, register_session-IsTracked, close_session-IsTracked}

abbrev Entries : Type 0
Entries = List (ℕ × SessionMetadata)

-- The greatest entry is this one.
abbrev Greatest : ℕ → ℕ → Entries → Type 0
Greatest id seq m =
    (p : ℕ × SessionMetadata) × (max_by_seq m ≡ some p) × (p.0 ≡ id) × (p.1.last_access_seq ≡ seq)

abbrev Under : ℕ → Entries → Type 0
Under seq = All (λ (p : ℕ × SessionMetadata). p.1.last_access_seq < seq)

max_by_seq-Under :
    (seq : ℕ) (m : Entries) (p : ℕ × SessionMetadata)
    → Under seq m
    → max_by_seq m ≡ some p
    → p.1.last_access_seq < seq
unfolding max_by_seq
max_by_seq-Under seq [] p u e = absurd (cc)
max_by_seq-Under seq (x ∷ xs) p u e = elim (Option-cases (max_by_seq xs)) [
  | inl n ↦ ground arith
  | inr (best, b) ↦ ground (arith, max_by_seq-Under seq xs best u.1 b)
]

-- An entry above all that stand behind it is the greatest.
Greatest-head :
    (x : ℕ × SessionMetadata) (xs : Entries)
    → Under x.1.last_access_seq xs
    → Greatest x.0 x.1.last_access_seq (x ∷ xs)
unfolding max_by_seq
Greatest-head x xs u = elim (Option-cases (max_by_seq xs)) [
  | inl n ↦ (x, ground arith, refl, refl)
  | inr (best, b) ↦
      (x, ground (arith, max_by_seq-Under x.1.last_access_seq xs best u b), refl, refl)
]

Greatest-head_as :
    (id seq : ℕ) (x : ℕ × SessionMetadata) (xs : Entries)
    → x.0 ≡ id
    → x.1.last_access_seq ≡ seq
    → Under seq xs
    → Greatest id seq (x ∷ xs)
Greatest-head_as id seq x xs i s u =
    let (p, e, j, t) = Greatest-head x xs (rw s u) in (p, e, j ∙ i, t ∙ s)

Greatest-tail :
    (id seq : ℕ) (x : ℕ × SessionMetadata) (xs : Entries)
    → x.1.last_access_seq < seq
    → Greatest id seq xs
    → Greatest id seq (x ∷ xs)
unfolding max_by_seq
Greatest-tail id seq x xs u (p, e, i, s) = (p, ground arith, i, s)

Greatest-modify :
    (id seq : ℕ) (m : Entries)
    → Under seq m
    → is_some (Assoc.lookup id m) ≡ true
    → Greatest id seq (Assoc.modify id (set_seq seq) m)
unfolding Assoc.modify Assoc.lookup set_seq
Greatest-modify id seq [] u h = absurd (cc)
Greatest-modify id seq ((j, w) ∷ m) u h = elim (Bool-cases (j == id)) [
  | inl e ↦ rw e (Greatest-head_as id seq (j, set_seq seq w) m (ground arith) refl u.1)
  | inr e ↦ rw e (Greatest-tail id seq (j, w) _ u.0 (Greatest-modify id seq m u.1 (ground arith)))
]

Greatest-insert :
    (id seq : ℕ) (meta : SessionMetadata) (m : Entries)
    → meta.last_access_seq ≡ seq
    → Under seq m
    → Greatest id seq (Assoc.insert id meta m)
unfolding Assoc.insert
Greatest-insert id seq meta [] s u = Greatest-head_as id seq (id, meta) [] refl s tt
Greatest-insert id seq meta ((j, w) ∷ m) s u = elim (Bool-cases (j == id)) [
  | inl e ↦ rw e (Greatest-head_as id seq (id, meta) m refl s u.1)
  | inr e ↦ rw e (Greatest-tail id seq (j, w) _ u.0 (Greatest-insert id seq meta m s u.1))
]

Under-next :
    (n : ℕ) (m : Entries)
    → All (λ (p : ℕ × SessionMetadata). p.1.last_access_seq ≤ n) m
    → Under (n + 1) m
Under-next n m h = All-map _ _ (λ p q. omega arith) m h

module _ {S : Type 0} where
  Greatest-most_recent :
      (r : SessionRegistry S) (id seq : ℕ)
      → Greatest id seq r.metadata
      → most_recent_session_id r ≡ some id
  unfolding most_recent_session_id
  Greatest-most_recent r id seq (p, e, i, s) = rw e (ap some i)

-- A session that is touched is the most recent one from then on: of a registry in order, with the
-- access counter short of its end, whatever order the map is walked in.
pub most_recent-touch_session :
    {S : Type 0} (id_of : S → ℕ) (c : AppController S) (id : ℕ)
    → IsTracked id_of c
    → c.access_seq + 1 < 2 ^ 64
    → is_some (get c.registry id) ≡ true
    → most_recent_session_id (touch_session c id).registry ≡ some id
unfolding touch_session touch get
most_recent-touch_session id_of c id v h there =
    let n = wrapping_add_exact c.access_seq 1 h in
    Greatest-most_recent _ id (c.access_seq + 1) (
      rw n (
        Greatest-modify id (c.access_seq + 1) c.registry.metadata
          (Under-next c.access_seq c.registry.metadata v.numbered) (ground (arith, v.same id))))

kind-insert :
    {S : Type 0} (id_of : S → ℕ) (r : SessionRegistry S) (s : S) (kind : SessionKind)
    (origin : Option SessionOrigin) (seq : ℕ)
    → Sessions.kind (insert id_of r s kind origin seq) (id_of s) ≡ some kind
unfolding Sessions.kind insert
kind-insert id_of r s kind origin seq =
    rw lookup-insert (ground (arith, ==_iff (id_of s) (id_of s)))

-- A session that is registered is found under its id with its kind, is the most recent one, and
-- no other id has another session than before.
pub register_session_lem :
    {S : Type 0} (id_of : S → ℕ) (c : AppController S) (s : S) (kind : SessionKind)
    (origin : Option SessionOrigin) (other : ℕ)
    → IsTracked id_of c
    → c.access_seq + 1 < 2 ^ 64
    → let d = register_session id_of c s kind origin in
      (get d.registry other ≡ (if id_of s == other then some s else get c.registry other))
      × (Sessions.kind d.registry (id_of s) ≡ some kind)
      × (most_recent_session_id d.registry ≡ some (id_of s))
      × IsTracked id_of d
unfolding register_session insert get Sessions.kind
register_session_lem id_of c s kind origin other v h =
    let n = wrapping_add_exact c.access_seq 1 h in
    (
      lookup-insert (id_of s) other s c.registry.sessions,
      kind-insert id_of c.registry s kind origin (wrapping_add c.access_seq 1),
      Greatest-most_recent _ (id_of s) (c.access_seq + 1) (
          Greatest-insert (id_of s) (c.access_seq + 1) _ c.registry.metadata n
            (Under-next c.access_seq c.registry.metadata v.numbered)),
      register_session-IsTracked id_of c s kind origin h v,
    )

-- A session that is closed is gone from both maps, and every other one stays as it was. The answer
-- says whether it was there.
pub close_session_lem :
    {S : Type 0} (id_of : S → ℕ) (c : AppController S) (id other : ℕ)
    → IsTracked id_of c
    → let d = (close_session c id).0 in
      (get d.registry other ≡ (if id == other then none else get c.registry other))
      × (Sessions.kind d.registry other
          ≡ (if id == other then none else Sessions.kind c.registry other))
      × ((close_session c id).1 ≡ is_some (get c.registry id))
      × IsTracked id_of d
unfolding close_session remove get Sessions.kind
close_session_lem id_of c id other v = (
  lookup-remove id other c.registry.sessions,
  rw lookup-remove (ground arith),
  refl,
  close_session-IsTracked id_of c id v,
)
