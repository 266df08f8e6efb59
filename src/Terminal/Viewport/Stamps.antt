-- ===== src/Terminal/Viewport/Stamps.antt =====
-- What a change of one row does to the revisions of ViewportCache,
-- crates/seance-terminal/src/viewport.rs.
use seance.Prelude.{
  ℕ, ◌≤◌, ◌<◌, ◌≡◌, refl, ◌∙◌, some, [], ◌∷◌, arith, length, length-append, length-set, get_elem?,
  get_elem?-append, get_elem?-set, All, All-append, All-set, All-map, saturating_add_below, u64_max,
}
use seance.Terminal.Model.{TerminalRow}
use seance.Terminal.Viewport.{ViewportCache, next_revision, push_row, write_row}

-- Each row has a revision, and none is above the counter.
pub record IsStamped (c : ViewportCache) : Type 0 where
  pub paired : length c.rows ≡ length c.row_revisions
  pub below : All (λ r. r ≤ c.next_row_revision) c.row_revisions

-- From `c` to `d` the counter did not fall, and a row of `d` whose revision the counter of `c` had
-- reached stood in `c` at the same place.
pub record Keeps (c d : ViewportCache) : Type 0 where
  pub grows : c.next_row_revision ≤ d.next_row_revision
  pub kept :
      (i r : ℕ)
      → get_elem? d.row_revisions i ≡ some r
      → r ≤ c.next_row_revision
      → (get_elem? c.row_revisions i ≡ some r) × (get_elem? d.rows i ≡ get_elem? c.rows i)

pub Keeps-refl : (c : ViewportCache) → Keeps c c
Keeps-refl c = record { grows = omega arith; kept = λ i r e h. (e, refl) }

pub Keeps-trans : (b c d : ViewportCache) → Keeps b c → Keeps c d → Keeps b d
Keeps-trans b c d p q = record {
  grows = omega arith;
  kept = λ i r e h.
      let later = q.kept i r e (omega arith) in
      let sooner = p.kept i r later.0 h in (sooner.0, later.1 ∙ sooner.1);
}

pub push_row-IsStamped :
    (c : ViewportCache) (row : TerminalRow)
    → next_revision c < u64_max
    → IsStamped c
    → IsStamped (push_row c row)
unfolding push_row
push_row-IsStamped c row h v =
    let n = saturating_add_below c.next_row_revision 1 h in
    record {
      paired = omega (
        arith,
        length-append c.rows (row ∷ []),
        length-append c.row_revisions (next_revision c ∷ []),
      );
      below =
          All-append _ c.row_revisions _ (All-map _ _ (λ r p. omega arith) c.row_revisions v.below)
            (omega arith, tt);
    }

pub push_row-Keeps :
    (c : ViewportCache) (row : TerminalRow)
    → next_revision c < u64_max
    → IsStamped c
    → Keeps c (push_row c row)
unfolding push_row
push_row-Keeps c row h v = record {
  grows = omega (arith, saturating_add_below c.next_row_revision 1 h);
  kept = λ i r e k. ground (
    arith,
    saturating_add_below c.next_row_revision 1 h,
    get_elem?-append c.rows row i,
    get_elem?-append c.row_revisions (next_revision c) i,
  );
}

pub write_row-Keeps :
    (c : ViewportCache) (index : ℕ) (row : TerminalRow)
    → next_revision c < u64_max
    → IsStamped c
    → Keeps c (write_row c index row)
unfolding write_row
write_row-Keeps c index row h v = record {
  grows = omega (arith, saturating_add_below c.next_row_revision 1 h);
  kept = λ i r e k. ground (
    arith,
    saturating_add_below c.next_row_revision 1 h,
    get_elem?-set c.rows index row i,
    get_elem?-set c.row_revisions index (next_revision c) i,
  );
}

pub write_row-IsStamped :
    (c : ViewportCache) (index : ℕ) (row : TerminalRow)
    → next_revision c < u64_max
    → IsStamped c
    → IsStamped (write_row c index row)
unfolding write_row
write_row-IsStamped c index row h v =
    let n = saturating_add_below c.next_row_revision 1 h in
    record {
      paired =
          omega (
            arith,
            length-set c.rows index row,
            length-set c.row_revisions index (next_revision c),
          );
      below =
          All-set _ c.row_revisions index _
            (All-map _ _ (λ r p. omega arith) c.row_revisions v.below) (omega arith);
    }
