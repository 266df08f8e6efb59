-- ===== src/Terminal/Viewport/Revisions.antt =====
-- Row revisions of ViewportCache, crates/seance-terminal/src/viewport.rs, between two snapshots.
use seance.Prelude.{
  ℕ, zero, suc, ◌+◌, ◌-◌, ◌≤◌, ◌<◌, ◌≡◌, refl, some, List, [], ◌∷◌, foldl, arith, length, get_elem?,
  All, All-append, All-get_elem?, saturating_add_below, u64_max,
}
use seance.Terminal.Model.{TerminalRow, default_row}
use seance.Terminal.Viewport.{
  ViewportCache, next_revision, push_row, bump_viewport_revision, reset_rows, pad_rows, write_row,
  replace_row, resize, set_cursor, set_scrollbar, refresh_stable_preview, Call, resets, replaces,
  sets_cursor, sets_scrollbar, step, run,
}
use seance.Terminal.Viewport.Stamps.{
  IsStamped, Keeps, Keeps-refl, Keeps-trans, push_row-IsStamped, push_row-Keeps, write_row-Keeps,
  write_row-IsStamped,
}

-- Both at once, for the calls below.
abbrev Moves : ViewportCache → ViewportCache → Type 0
Moves c d = IsStamped d × Keeps c d

Moves-trans : (b c d : ViewportCache) → Keeps b c → Moves c d → Moves b d
Moves-trans b c d p (s, q) = (s, Keeps-trans b c d p q)

push_before :
    (c : ViewportCache) (row : TerminalRow)
    → (push_row c row).next_row_revision < u64_max
    → c.next_row_revision < u64_max
unfolding push_row
push_before c row h = omega (arith, saturating_add_below c.next_row_revision 1 h)

push_loop_before :
    (rows : List TerminalRow) (c : ViewportCache)
    → (foldl push_row c rows).next_row_revision < u64_max
    → c.next_row_revision < u64_max
push_loop_before [] c h = h
push_loop_before (r ∷ rs) c h = push_before c r (push_loop_before rs (push_row c r) h)

push_loop :
    (rows : List TerminalRow) (c : ViewportCache)
    → (foldl push_row c rows).next_row_revision < u64_max
    → IsStamped c
    → Moves c (foldl push_row c rows)
push_loop [] c h v = (v, Keeps-refl c)
push_loop (r ∷ rs) c h v =
    let later : next_revision c < u64_max =
      unfold push_row in push_loop_before rs (push_row c r) h in
    Moves-trans c (push_row c r) _ (push_row-Keeps c r later v)
      (push_loop rs (push_row c r) h (push_row-IsStamped c r later v))

-- The loop stamps its rows above the counter with which it began.
push_loop_above :
    (lo : ℕ) (rows : List TerminalRow) (c : ViewportCache)
    → (foldl push_row c rows).next_row_revision < u64_max
    → lo ≤ c.next_row_revision
    → All (λ r. lo < r) c.row_revisions
    → All (λ r. lo < r) (foldl push_row c rows).row_revisions
push_loop_above lo [] c h k v = v
push_loop_above lo (r ∷ rs) c h k v =
    let later : next_revision c < u64_max =
      unfold push_row in push_loop_before rs (push_row c r) h in
    let one = saturating_add_below c.next_row_revision 1 later in
    push_loop_above lo rs (push_row c r) h (unfold push_row in omega arith)
      (unfold push_row in All-append _ c.row_revisions _ v (omega arith, tt))

abbrev cleared : ViewportCache → ViewportCache
cleared c = record c { rows = []; row_revisions = [] }

reset_rows-Moves :
    (c : ViewportCache) (rows : List TerminalRow)
    → (reset_rows c rows).next_row_revision < u64_max
    → Moves c (reset_rows c rows)
unfolding reset_rows bump_viewport_revision
reset_rows-Moves c rows h =
    let d = foldl push_row (cleared c) rows in
    let m = push_loop rows (cleared c) h (record { paired = refl; below = tt }) in
    let above = push_loop_above c.next_row_revision rows (cleared c) h (omega arith) tt in
    (
      record { paired = m.0.paired; below = m.0.below },
      record {
        grows = m.1.grows;
        kept = λ i r e k.
            let high = All-get_elem? (λ s. c.next_row_revision < s) d.row_revisions i above e in
            absurd (omega arith);
      },
    )

pad_before :
    (n : ℕ) (c : ViewportCache)
    → (pad_rows n c).next_row_revision < u64_max
    → c.next_row_revision < u64_max
unfolding pad_rows
pad_before zero c h = h
pad_before (suc n) c h = push_before c default_row (pad_before n (push_row c default_row) h)

pad_rows-Moves :
    (n : ℕ) (c : ViewportCache)
    → (pad_rows n c).next_row_revision < u64_max
    → IsStamped c
    → Moves c (pad_rows n c)
unfolding pad_rows
pad_rows-Moves zero c h v = (v, Keeps-refl c)
pad_rows-Moves (suc n) c h v =
    let later : next_revision c < u64_max =
      unfold push_row in pad_before n (push_row c default_row) h in
    Moves-trans c (push_row c default_row) _ (push_row-Keeps c default_row later v)
      (pad_rows-Moves n (push_row c default_row) h (push_row-IsStamped c default_row later v))

write_row-Moves :
    (c : ViewportCache) (index : ℕ) (row : TerminalRow)
    → (write_row c index row).next_row_revision < u64_max
    → IsStamped c
    → Moves c (write_row c index row)
write_row-Moves c index row h v =
    let later : next_revision c < u64_max = unfold write_row in h in
    (write_row-IsStamped c index row later v, write_row-Keeps c index row later v)

write_before :
    (c : ViewportCache) (index : ℕ) (row : TerminalRow)
    → (write_row c index row).next_row_revision < u64_max
    → c.next_row_revision < u64_max
unfolding write_row
write_before c index row h = omega (arith, saturating_add_below c.next_row_revision 1 h)

padded-Moves :
    (n : ℕ) (c : ViewportCache) (index : ℕ) (row : TerminalRow)
    → (write_row (pad_rows n c) index row).next_row_revision < u64_max
    → IsStamped c
    → Moves c (write_row (pad_rows n c) index row)
padded-Moves n c index row h v =
    let padded = pad_rows-Moves n c (write_before (pad_rows n c) index row h) v in
    Moves-trans c (pad_rows n c) _ padded.1 (write_row-Moves (pad_rows n c) index row h padded.0)

replace_row-Moves :
    (c : ViewportCache) (index : ℕ) (row : TerminalRow)
    → (replace_row c index row).next_row_revision < u64_max
    → IsStamped c
    → Moves c (replace_row c index row)
unfolding replace_row
replace_row-Moves c index row h v =
    ground
      (arith, padded-Moves (index + 1 - length c.rows) c index row, write_row-Moves c index row)

replace_row_before :
    (c : ViewportCache) (index : ℕ) (row : TerminalRow)
    → (replace_row c index row).next_row_revision < u64_max
    → c.next_row_revision < u64_max
unfolding replace_row
replace_row_before c index row h = ground (
  arith,
  pad_before (index + 1 - length c.rows) c,
  write_before (pad_rows (index + 1 - length c.rows) c) index row,
  write_before c index row,
)

reset_rows_before :
    (c : ViewportCache) (rows : List TerminalRow)
    → (reset_rows c rows).next_row_revision < u64_max
    → c.next_row_revision < u64_max
unfolding reset_rows bump_viewport_revision
reset_rows_before c rows h = push_loop_before rows (cleared c) h

-- A call that touches neither the rows nor their revisions.
Moves-same :
    (c d : ViewportCache)
    → d.rows ≡ c.rows
    → d.row_revisions ≡ c.row_revisions
    → d.next_row_revision ≡ c.next_row_revision
    → IsStamped c
    → Moves c d
Moves-same c d e f g v = (
  record { paired = ground arith; below = rw (f, g) v.below },
  record { grows = omega arith; kept = λ i r k h. (rw f at k, rw e) },
)

step_before :
    (c : ViewportCache) (call : Call)
    → (step c call).next_row_revision < u64_max
    → c.next_row_revision < u64_max
unfolding step resize set_cursor set_scrollbar refresh_stable_preview bump_viewport_revision
step_before c (resets rows) h = reset_rows_before c rows h
step_before c (replaces index r) h = replace_row_before c index r h
step_before c (sets_cursor cursor) h = ground arith
step_before c (sets_scrollbar bar) h = ground arith
step_before c _ h = h

step-Moves :
    (c : ViewportCache) (call : Call)
    → (step c call).next_row_revision < u64_max
    → IsStamped c
    → Moves c (step c call)
unfolding step resize set_cursor set_scrollbar refresh_stable_preview bump_viewport_revision
step-Moves c (resets rows) h v = reset_rows-Moves c rows h
step-Moves c (replaces index r) h v = replace_row-Moves c index r h v
step-Moves c (sets_cursor cursor) h v = ground (
  arith,
  Moves-same c c refl refl refl v,
  Moves-same c (record c { cursor = cursor }) refl refl refl v,
)
step-Moves c (sets_scrollbar bar) h v = ground (
  arith,
  Moves-same c c refl refl refl v,
  Moves-same c (record c { scrollbar = bar }) refl refl refl v,
)
step-Moves c _ h v = Moves-same c _ refl refl refl v

run_before :
    (calls : List Call) (c : ViewportCache)
    → (run c calls).next_row_revision < u64_max
    → c.next_row_revision < u64_max
unfolding run
run_before [] c h = h
run_before (k ∷ ks) c h = step_before c k (run_before ks (step c k) h)

run-Moves :
    (calls : List Call) (c : ViewportCache)
    → (run c calls).next_row_revision < u64_max
    → IsStamped c
    → Moves c (run c calls)
unfolding run
run-Moves [] c h v = (v, Keeps-refl c)
run-Moves (k ∷ ks) c h v =
    let moved = step-Moves c k (run_before ks (step c k) h) v in
    Moves-trans c (step c k) _ moved.1 (run-Moves ks (step c k) h moved.0)

-- Whatever the renderer does between two snapshots of a cache whose revisions are in order: they
-- stay in order, with one revision for each row, and a place with the same revision in both
-- snapshots holds the same row in both. The 64-bit counter must not have come to its end.
pub run-same_revision :
    (c : ViewportCache) (calls : List Call) (i r : ℕ)
    → IsStamped c
    → (run c calls).next_row_revision < u64_max
    → get_elem? c.row_revisions i ≡ some r
    → get_elem? (run c calls).row_revisions i ≡ some r
    → IsStamped (run c calls) × (get_elem? (run c calls).rows i ≡ get_elem? c.rows i)
run-same_revision c calls i r v h old now =
    let moved = run-Moves calls c h v in
    (moved.0, (moved.1.kept i r now (All-get_elem? _ c.row_revisions i v.below old)).1)
