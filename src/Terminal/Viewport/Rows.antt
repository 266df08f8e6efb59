-- ===== src/Terminal/Viewport/Rows.antt =====
-- What a write leaves in the rows of ViewportCache, crates/seance-terminal/src/viewport.rs.
use seance.Prelude.{
  ℕ, zero, suc, ◌+◌, ◌-◌, ◌≡◌, none, some, [], ◌∷◌, arith, ltb, ◌==◌, if◌then◌else◌, length,
  length-append, get_elem?, get_elem?-append, get_elem?-set, get_elem?_past,
}
use seance.Terminal.Model.{TerminalRow, default_row}
use seance.Terminal.Viewport.{ViewportCache, push_row, pad_rows, write_row, replace_row}

length-pad : (n : ℕ) (c : ViewportCache) → length (pad_rows n c).rows ≡ length c.rows + n
unfolding pad_rows push_row
length-pad zero c = omega arith
length-pad (suc n) c =
    omega (arith, length-pad n (push_row c default_row), length-append c.rows (default_row ∷ []))

get_elem?-pad :
    (n : ℕ) (c : ViewportCache) (j : ℕ)
    → get_elem? (pad_rows n c).rows j ≡ (
        if ltb j (length c.rows)
        then get_elem? c.rows j
        else if ltb j (length c.rows + n)
        then some default_row
        else none)
unfolding pad_rows push_row
get_elem?-pad zero c j = ground (arith, get_elem?_past c.rows j)
get_elem?-pad (suc n) c j = ground (
  arith,
  get_elem?-pad n (push_row c default_row) j,
  length-append c.rows (default_row ∷ []),
  get_elem?-append c.rows default_row j,
)

-- After `replace_row` at any index, in range or past the end: the row stands at its index, every
-- other row of the cache stays where it was, the places between the old end and the index hold
-- default rows, and there is nothing behind.
pub get_elem?-replace_row :
    (c : ViewportCache) (index : ℕ) (new_row : TerminalRow) (j : ℕ)
    → get_elem? (replace_row c index new_row).rows j ≡ (
        if j == index
        then some new_row
        else if ltb j (length c.rows)
        then get_elem? c.rows j
        else if ltb j index
        then some default_row
        else none)
unfolding replace_row write_row
get_elem?-replace_row c index new_row j =
    let missing = index + 1 - length c.rows in
    ground (
      arith,
      get_elem?-set (pad_rows missing c).rows index new_row j,
      get_elem?-set c.rows index new_row j,
      length-pad missing c,
      get_elem?-pad missing c j,
      get_elem?_past c.rows j,
    )
