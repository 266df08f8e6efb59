-- ===== src/Core/Sessions/Tracked.antt =====
-- The two maps of the session registry in crates/seance-core/src/lib.rs, side by side.
use seance.Prelude.{
  ℕ, ◌+◌, ◌≤◌, ◌<◌, ◌^◌, ◌≡◌, refl, Option, arith, is_some, All, All-map, wrapping_add_exact,
  nat_eq,
}
use seance.Prelude.Assoc
use seance.Prelude.Assoc.{
  Distinct, lookup-insert, lookup-remove, lookup-modify, Distinct-insert, Distinct-remove,
  Distinct-modify, All-insert, All-remove, All-modify,
}
use seance.Core.Sessions.{
  SessionKind, SessionOrigin, SessionMetadata, AppController, set_seq, touch, remove, insert,
  register_session, touch_session, close_session,
}

module _ {S : Type 0} (id_of : S → ℕ) where
  -- Each session stands once, under its own id, each has metadata and no other id has, and no
  -- access is numbered above the counter.
  pub record IsTracked (c : AppController S) : Type 0 where
    pub keyed : All (λ (p : ℕ × S). id_of p.1 ≡ p.0) c.registry.sessions
    pub once : Distinct c.registry.sessions
    pub once_metadata : Distinct c.registry.metadata
    pub same :
        (id : ℕ)
        → is_some (Assoc.lookup id c.registry.sessions)
          ≡ is_some (Assoc.lookup id c.registry.metadata)
    pub numbered :
        All (λ (p : ℕ × SessionMetadata). p.1.last_access_seq ≤ c.access_seq) c.registry.metadata

  pub register_session-IsTracked :
      (c : AppController S) (s : S) (kind : SessionKind) (origin : Option SessionOrigin)
      → c.access_seq + 1 < 2 ^ 64
      → IsTracked c
      → IsTracked (register_session id_of c s kind origin)
  unfolding register_session insert
  register_session-IsTracked c s kind origin h v =
      let n = wrapping_add_exact c.access_seq 1 h in
      record {
        keyed = All-insert _ (id_of s) s c.registry.sessions refl v.keyed;
        once = Distinct-insert (id_of s) s c.registry.sessions v.once;
        once_metadata = Distinct-insert (id_of s) _ c.registry.metadata v.once_metadata;
        same = λ id. rw (lookup-insert, lookup-insert) (ground (arith, v.same id));
        numbered =
            All-insert _ (id_of s) _ c.registry.metadata (omega arith)
              (All-map _ _ (λ p q. omega arith) c.registry.metadata v.numbered);
      }

  pub touch_session-IsTracked :
      (c : AppController S) (id : ℕ)
      → c.access_seq + 1 < 2 ^ 64
      → IsTracked c
      → IsTracked (touch_session c id)
  unfolding touch_session touch set_seq
  touch_session-IsTracked c id h v =
      let n = wrapping_add_exact c.access_seq 1 h in
      record {
        keyed = v.keyed;
        once = v.once;
        once_metadata = Distinct-modify id _ c.registry.metadata v.once_metadata;
        same = λ j. rw lookup-modify (ground (arith, v.same j));
        numbered =
            All-modify _ id _ c.registry.metadata (λ j m p. omega arith)
              (All-map _ _ (λ p q. omega arith) c.registry.metadata v.numbered);
      }

  pub close_session-IsTracked :
      (c : AppController S) (id : ℕ) → IsTracked c → IsTracked (close_session c id).0
  unfolding close_session remove
  close_session-IsTracked c id v = record {
    keyed = All-remove _ id c.registry.sessions v.keyed;
    once = Distinct-remove id c.registry.sessions v.once;
    once_metadata = Distinct-remove id c.registry.metadata v.once_metadata;
    same = λ j. rw (lookup-remove, lookup-remove) (ground (arith, v.same j));
    numbered = All-remove _ id c.registry.metadata v.numbered;
  }
