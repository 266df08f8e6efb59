-- ===== src/Terminal/Viewport.antt =====
-- ViewportCache of crates/seance-terminal/src/viewport.rs: the visible rows, each with the revision
-- by which a reader tells whether it changed. `Arc` shares rows that are never written to, so a
-- row is its value here.
pub mod Stamps
pub mod Revisions
pub mod Rows
pub mod Preview
pub mod Tests
use mathlib.Core.Logic.{ite}
use mathlib.Core.List.{reverse}
use mathlib.Core.Option
use seance.Prelude.{
  ℕ, zero, suc, ◌+◌, ◌-◌, Bool, true, false, Option, none, some, List, [], ◌∷◌, ◌++◌, leb,
  if◌then◌else◌, length, get_elem?, set, is_empty, not, Text, trim, saturating_add, foldl,
}
use seance.Terminal.Model.{
  TerminalGeometry, TerminalRow, default_row, plain_text, TerminalCursorState,
  TerminalScrollbarState, TerminalScreenKind, SessionSummary, TerminalViewportSnapshot,
  cursor_discrete, scrollbar_discrete,
}

pub record ViewportCache : Type 0 where
  pub rows : List TerminalRow
  pub row_revisions : List ℕ
  pub viewport_revision : ℕ
  pub next_row_revision : ℕ
  pub geometry : TerminalGeometry
  pub at_bottom : Bool
  pub cursor : Option TerminalCursorState
  pub scrollbar : Option TerminalScrollbarState
  pub stable_preview_line : Text

-- The counter after `bump_row_revision`, which returns it too.
abbrev pub next_revision : ViewportCache → ℕ
next_revision c = saturating_add c.next_row_revision 1

-- `rows.push(..); let revision = bump_row_revision(); row_revisions.push(revision);`
pub push_row : ViewportCache → TerminalRow → ViewportCache
push_row c row = record c {
  rows = c.rows ++ row ∷ [];
  row_revisions = c.row_revisions ++ next_revision c ∷ [];
  next_row_revision = next_revision c;
}

pub bump_viewport_revision : ViewportCache → ViewportCache
bump_viewport_revision c = record c { viewport_revision = saturating_add c.viewport_revision 1 }

pub reset_rows : ViewportCache → List TerminalRow → ViewportCache
reset_rows c rows =
    bump_viewport_revision (foldl push_row (record c { rows = []; row_revisions = [] }) rows)

-- `while rows.len() < target_len`: as many default rows as are missing.
pub pad_rows : ℕ → ViewportCache → ViewportCache
pad_rows zero c = c
pad_rows (suc missing) c = pad_rows missing (push_row c default_row)

pub write_row : ViewportCache → ℕ → TerminalRow → ViewportCache
write_row c index row = record c {
  rows = set c.rows index row;
  row_revisions = set c.row_revisions index (next_revision c);
  next_row_revision = next_revision c;
}

pub replace_row : ViewportCache → ℕ → TerminalRow → ViewportCache
replace_row c index row =
    if leb (length c.rows) index
    then write_row (pad_rows (index + 1 - length c.rows) c) index row
    else write_row c index row

pub resize : ViewportCache → TerminalGeometry → ViewportCache
resize c geometry = record c { geometry = geometry }

-- Whether the cursor changed comes back beside the cache.
pub set_cursor : ViewportCache → Option TerminalCursorState → ViewportCache × Bool
set_cursor c cursor =
    ite (cursor_discrete c.cursor cursor) (c, false) (record c { cursor = cursor }, true)

pub set_scrollbar : ViewportCache → Option TerminalScrollbarState → ViewportCache × Bool
set_scrollbar c scrollbar =
    ite (scrollbar_discrete c.scrollbar scrollbar) (c, false)
      (record c { scrollbar = scrollbar }, true)

pub row : ViewportCache → ℕ → Option TerminalRow
row c index = get_elem? c.rows index

pub is_blank : Text → Bool
is_blank line = is_empty (trim line)

-- `find` on the lines from the bottom up, or the empty line.
pub find_preview : List TerminalRow → Text
find_preview [] = []
find_preview (r ∷ rs) = let line = plain_text r in if is_blank line then find_preview rs else line

pub computed_preview_line : ViewportCache → Text
computed_preview_line c = find_preview (reverse c.rows)

pub refresh_stable_preview : ViewportCache → ViewportCache
refresh_stable_preview c = record c { stable_preview_line = computed_preview_line c }

pub new : TerminalGeometry → TerminalRow → ViewportCache
new geometry initial_row = refresh_stable_preview (reset_rows empty (initial_row ∷ []))
  where
    empty : ViewportCache
    empty = record {
      rows = [];
      row_revisions = [];
      viewport_revision = 1;
      next_row_revision = 1;
      geometry = geometry;
      at_bottom = true;
      cursor = none;
      scrollbar = none;
      stable_preview_line = [];
    }

pub snapshot : ViewportCache → TerminalViewportSnapshot
snapshot c = record {
  rows = c.rows;
  row_revisions = c.row_revisions;
  cursor = c.cursor;
  scrollbar = c.scrollbar;
  scroll_offset_rows = elim c.scrollbar [ none ↦ 0 | some bar ↦ bar.offset_rows ];
  revision = c.viewport_revision;
  cols = c.geometry.size.cols;
  rows_visible = c.geometry.size.rows;
}

pub summary : ViewportCache → Option Text → ℕ → TerminalScreenKind → Bool → SessionSummary
summary c exit_status scrollback_rows active_screen mouse_tracking = record {
  exit_status = exit_status;
  preview_line = c.stable_preview_line;
  viewport_revision = c.viewport_revision;
  scrollback_rows = scrollback_rows;
  active_screen = active_screen;
  mouse_tracking = mouse_tracking;
  at_bottom = c.at_bottom;
}

-- The calls of the renderer that change the cache.
pub data Call : Type 0 where
  resets : List TerminalRow → Call
  replaces : ℕ → TerminalRow → Call
  resizes : TerminalGeometry → Call
  sets_cursor : Option TerminalCursorState → Call
  sets_scrollbar : Option TerminalScrollbarState → Call
  sets_at_bottom : Bool → Call
  bumps refreshes_preview : Call

pub step : ViewportCache → Call → ViewportCache
step c (resets rows) = reset_rows c rows
step c (replaces index r) = replace_row c index r
step c (resizes geometry) = resize c geometry
step c (sets_cursor cursor) = (set_cursor c cursor).0
step c (sets_scrollbar scrollbar) = (set_scrollbar c scrollbar).0
step c (sets_at_bottom at_bottom) = record c { at_bottom = at_bottom }
step c bumps = bump_viewport_revision c
step c refreshes_preview = refresh_stable_preview c

pub run : ViewportCache → List Call → ViewportCache
run c calls = foldl step c calls
