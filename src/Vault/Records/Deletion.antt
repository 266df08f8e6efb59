-- ===== src/Vault/Records/Deletion.antt =====
-- delete_record of crates/seance-vault/src/lib.rs where it returns, whatever SQLite refused before.
use seance.Prelude.{
  ℕ, Bool, true, false, Option, none, some, List, [], ◌∷◌, Text, is_some, list_beq, nat_eq, list_eq,
  ok, ◌≡◌, refl, ap, ◌∙◌, sym, subst, inl, inr, Bool-cases, arith,
}
use seance.Prelude.Compare.{ℤ}
use seance.Vault.Exec.{pure, gets, modify, ◌>>=◌, ◌>>◌}
use seance.Vault.Exec.Keeps.{
  Keeps, Keeps-bind, Keeps-gets, Keeps-modify, Keeps-pure, Keeps-ok_or, Keeps-raise_if,
}
use seance.Vault.Exec.Returns.{bind-Steps}
use seance.Vault.Model.{RecordKind, EncryptedRecord}
use seance.Vault.Failure.{VaultError}
use seance.Vault.Storage.{
  Conn, Sql, answered, statement, query, execute, bind_u64, bind_option, find, has_key, same_kind,
  upsert_row, set_last_logical_clock, bump_logical_clock, load_record, upsert_record,
}
use seance.Vault.Storage.Rows.{Keyed, find-has_key, row_at-upsert_row, upsert_row-Keyed}
use seance.Vault.Session.{VaultStore, sql}
use seance.Vault.Records.{advance_clock, tombstone, delete_found, delete_record}

-- The table of records as it stands.
abbrev pub Has : List EncryptedRecord → Conn → Type 0
Has rows c = c.records ≡ rows

pub record Rows {D : Type 0} (rows : List EncryptedRecord) (s : VaultStore D) : Type 0 where
  pub same : s.conn.records ≡ rows

module _ {rows : List EncryptedRecord} where
  answered-Has : (fs : List Bool) (c : Conn) → Has rows c → Has rows (answered fs c).1
  unfolding answered
  answered-Has [] c h = h
  answered-Has (f ∷ fs) c h = h

  statement-Has : Keeps (Has rows) statement
  unfolding statement
  statement-Has = record { at = λ c h. answered-Has c.faults c h }

  pub query-Has : {A : Type 0} (f : Conn → A) → Keeps (Has rows) (query f)
  unfolding query
  query-Has f = Keeps-bind statement (λ u. gets f) statement-Has (λ u. Keeps-gets f)

  pub bind_u64-Has : (n : ℕ) → Keeps (Has rows) (bind_u64 n)
  unfolding bind_u64
  bind_u64-Has n = Keeps-raise_if _ _

  bind_option-Has : (o : Option ℕ) → Keeps (Has rows) (bind_option o)
  unfolding bind_option
  bind_option-Has none = Keeps-pure tt
  bind_option-Has (some n) = bind_u64-Has n

  set_last_logical_clock-Has :
      (clock : ℕ) (now : ℤ) → Keeps (Has rows) (set_last_logical_clock clock now)
  unfolding set_last_logical_clock execute
  set_last_logical_clock-Has clock now =
      Keeps-bind _ _ (bind_u64-Has clock)
        (λ u. Keeps-bind _ _ statement-Has (λ w. Keeps-modify _ (λ c h. h)))

  bump_logical_clock-Has : (now : ℤ) → Keeps (Has rows) (bump_logical_clock now)
  unfolding bump_logical_clock
  bump_logical_clock-Has now = Keeps-bind _ _ (query-Has _) (λ found.
      Keeps-bind _ _ (Keeps-ok_or found _)
        (λ header. Keeps-bind _ _ (set_last_logical_clock-Has _ now) (λ u. Keeps-pure _)))

module _ {D : Type 0} {rows : List EncryptedRecord} where
  pub sql-Rows : {A : Type 0} (m : Sql A) → Keeps (Has rows) m → Keeps (Rows {D = D} rows) (sql m)
  unfolding sql
  sql-Rows m k = record { at = λ s h. record { same = k.at s.conn h.same } }

  advance_clock-Rows : (bumped_at now : ℤ) → Keeps (Rows {D = D} rows) (advance_clock bumped_at now)
  unfolding advance_clock
  advance_clock-Rows bumped_at now =
      Keeps-bind _ _ (sql-Rows _ (bump_logical_clock-Has bumped_at)) (λ clock.
        Keeps-bind _ _ (Keeps-modify _ (λ s h. record { same = h.same })) (λ u. Keeps-pure clock))

-- A step that returned left the records as they were.
step_kept :
    {A : Type 0} (m : Sql A) (c t : Conn) (a : A)
    → Keeps (Has c.records) m
    → m c ≡ (ok a, t)
    → t.records ≡ c.records
step_kept m c t a k e = ap (λ r. r.1.records) (sym e) ∙ k.at c refl

upsert_record_ok :
    (r : EncryptedRecord) (c : Conn) (u : Unit {0})
    → (upsert_record r c).0 ≡ ok u
    → (upsert_record r c).1.records ≡ upsert_row r c.records
unfolding upsert_record execute modify
upsert_record_ok r c u h =
    let a = bind-Steps _ _ c u h in
    let b = bind-Steps _ _ a.state u a.rest in
    let s = bind-Steps statement _ b.state u b.rest in
    ap (λ x. x.1.records) (a.whole ∙ b.whole ∙ s.whole)
    ∙ ap (upsert_row r) (
        step_kept _ b.state s.state s.value statement-Has s.step
        ∙ step_kept _ a.state b.state b.value (bind_option-Has r.last_synced_clock) b.step
        ∙ step_kept _ c a.state a.value (bind_u64-Has r.logical_clock) a.step)

found_key :
    (id : Text) (kind : RecordKind) (rows : List EncryptedRecord) (r : EncryptedRecord)
    → find (has_key id kind) rows ≡ some r
    → has_key id kind r ≡ true
unfolding find
found_key id kind [] r h = ground arith
found_key id kind (x ∷ rest) r h = elim (Bool-cases (has_key id kind x)) [
  | inl own ↦ ground arith
  | inr other ↦ found_key id kind rest r (ground arith)
]

find_written :
    (id : Text) (kind : RecordKind) (new : EncryptedRecord) (rows : List EncryptedRecord)
    → Keyed rows
    → has_key id kind new ≡ true
    → find (has_key id kind) (upsert_row new rows) ≡ some new
unfolding has_key
find_written id kind new rows k h =
    let own : list_beq new.record_id id ≡ true = ground arith in
    let of : same_kind new.kind kind ≡ true = ground arith in
    rw (find-has_key id kind (upsert_row new rows) (upsert_row-Keyed new rows k))
      (rw (row_at-upsert_row id new rows) (rw own (rw of refl)))

load_record_ok :
    (id : Text) (kind : RecordKind) (c t : Conn) (found : Option EncryptedRecord)
    → load_record id kind c ≡ (ok found, t)
    → (t.records ≡ c.records) × (find (has_key id kind) c.records ≡ found)
unfolding load_record query gets
load_record_ok id kind c t found e =
    let b = bind-Steps statement _ c found (ap (λ r. r.0) e) in
    let kept : b.state.records ≡ c.records = step_kept _ c b.state b.value statement-Has b.step in
    let same : load_record id kind c ≡ (ok (find (has_key id kind) b.state.records), b.state) =
      b.whole in
    let value = ap (λ r. r.0) (sym e ∙ same) in
    (
      ap (λ r. r.1.records) (sym e ∙ same) ∙ kept,
      ap (find (has_key id kind)) (sym kept) ∙ ground arith,
    )

module _ {D : Type 0} where
  sql_returned :
      {A : Type 0} (m : Sql A) (s t : VaultStore D) (a : A)
      → sql m s ≡ (ok a, t)
      → m s.conn ≡ (ok a, t.conn)
  unfolding sql
  sql_returned m s t a e = ap (λ r. (r.0, r.1.conn)) e

  -- What a deletion that returned true has left.
  pub record Deleted (id : Text) (kind : RecordKind) (now : ℤ) (s t : VaultStore D) : Type 0 where
    pub before : EncryptedRecord
    pub was_there : find (has_key id kind) s.conn.records ≡ some before
    pub clock : ℕ
    pub rows : t.conn.records ≡ upsert_row (tombstone before clock now) s.conn.records
    pub stays : find (has_key id kind) t.conn.records ≡ some (tombstone before clock now)

  advance_clock-records :
      (bumped_at now : ℤ) (s t : VaultStore D) (clock : ℕ)
      → advance_clock bumped_at now s ≡ (ok clock, t)
      → t.conn.records ≡ s.conn.records
  advance_clock-records bumped_at now s t clock e =
      ap (λ r. r.1.conn.records) (sym e)
      ∙ ((advance_clock-Rows bumped_at now).at s (record { same = refl })).same

  false_not_true : (s : VaultStore D) → ¬ ((pure {E = VaultError} false s).0 ≡ ok true)
  unfolding pure
  false_not_true s h = ground arith

  delete_alive_ok :
      (id : Text) (kind : RecordKind) (bumped_at now : ℤ) (s : VaultStore D) (r : EncryptedRecord)
      → Keyed s.conn.records
      → find (has_key id kind) s.conn.records ≡ some r
      → let rest = advance_clock bumped_at now >>= λ clock.
          sql (upsert_record (tombstone r clock now)) >> pure true in
        (rest s).0 ≡ ok true → Deleted id kind now s (rest s).1
  unfolding pure tombstone has_key
  delete_alive_ok id kind bumped_at now s r k f h =
      let a = bind-Steps (advance_clock bumped_at now) _ s true h in
      let b = bind-Steps (sql (upsert_record (tombstone r a.value now))) _ a.state true a.rest in
      let u =
        sql_returned (upsert_record (tombstone r a.value now)) a.state b.state b.value b.step in
      let rows : b.state.conn.records ≡ upsert_row (tombstone r a.value now) s.conn.records =
        ap (λ x. x.1.records) (sym u)
        ∙ upsert_record_ok (tombstone r a.value now) a.state.conn b.value (ap (λ x. x.0) u)
        ∙ ap (upsert_row (tombstone r a.value now))
            (advance_clock-records bumped_at now s a.state a.value a.step) in
      rw a.whole (
        rw b.whole (record {
          before = r;
          was_there = f;
          clock = a.value;
          rows = rows;
          stays =
              ap (find (has_key id kind)) rows
              ∙ find_written id kind (tombstone r a.value now) s.conn.records k
                  (found_key id kind s.conn.records r f);
        }))

  delete_found_ok :
      (id : Text) (kind : RecordKind) (bumped_at now : ℤ) (s : VaultStore D)
      (found : Option EncryptedRecord)
      → Keyed s.conn.records
      → find (has_key id kind) s.conn.records ≡ found
      → (delete_found found bumped_at now s).0 ≡ ok true
      → Deleted id kind now s (delete_found found bumped_at now s).1
  unfolding delete_found pure
  delete_found_ok id kind bumped_at now s none k f h = ground arith
  delete_found_ok id kind bumped_at now s (some r) k f h =
      elim (Bool-cases (is_some r.deleted_at)) [
        | inl gone ↦ absurd (false_not_true s (rw gone at h))
        | inr alive ↦ rw alive (delete_alive_ok id kind bumped_at now s r k f (rw alive at h))
      ]

  -- A deletion that returns true, whatever SQLite refuses meanwhile and whatever other devices know: a
  -- record of that id and kind was there, nothing in the table changed but that record, and it stays
  -- there as a tombstone, so that other devices hear of the deletion.
  pub delete_record-Deleted :
      (id : Text) (kind : RecordKind) (bumped_at now : ℤ) (s : VaultStore D)
      → Keyed s.conn.records
      → (delete_record id kind bumped_at now s).0 ≡ ok true
      → Deleted id kind now s (delete_record id kind bumped_at now s).1
  unfolding delete_record
  delete_record-Deleted id kind bumped_at now s k h =
      let b = bind-Steps (sql (load_record id kind)) _ s true h in
      let l =
        load_record_ok id kind s.conn b.state.conn b.value
          (sql_returned _ s b.state b.value b.step) in
      let d =
        delete_found_ok id kind bumped_at now b.state b.value (subst Keyed (sym l.0) k)
          (ap (find (has_key id kind)) l.0 ∙ l.1) b.rest in
      rw b.whole (record {
        before = d.before;
        was_there = ap (find (has_key id kind)) (sym l.0) ∙ d.was_there;
        clock = d.clock;
        rows = d.rows ∙ ap (upsert_row (tombstone d.before d.clock now)) l.0;
        stays = d.stays;
      })
