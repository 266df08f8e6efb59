-- ===== src/Terminal/Viewport/Tests.antt =====
-- Runs of ViewportCache, of crates/seance-terminal/src/viewport.rs, and the theorems at inputs.
use seance.Prelude.{
  ◌≡◌, refl, true, false, some, none, [], ◌∷◌, arith, Text, codes, get_elem?, saturating_add,
}
use seance.Terminal.Model.{TerminalGeometry, TerminalCellStyle, TerminalRow, default_row}
use seance.Terminal.Viewport.{
  ViewportCache, replaces, bumps, push_row, replace_row, reset_rows, bump_viewport_revision,
  write_row, refresh_stable_preview, new, step, run,
}
use seance.Terminal.Viewport.Stamps.{IsStamped}
use seance.Terminal.Viewport.Revisions.{run-same_revision}
use seance.Terminal.Viewport.Rows.{get_elem?-replace_row}

abbrev plain : TerminalCellStyle
plain = record {
  foreground = none;
  background = none;
  bold = false;
  italic = false;
  faint = false;
  underline = false;
  inverse = false;
  invisible = false;
}

abbrev row_of : Text → TerminalRow
row_of text = record { cells = record { text = text; style = plain; width = 1 } ∷ [] }

abbrev geometry : TerminalGeometry
geometry = record {
  size = record { cols = 80; rows = 24 };
  pixel_size = record { width_px = 640; height_px = 456 };
  cell_width_px = 8;
  cell_height_px = 19;
}

abbrev two_rows : ViewportCache
two_rows = record {
  rows = row_of (codes "ls") ∷ row_of (codes " ") ∷ [];
  row_revisions = 2 ∷ 3 ∷ [];
  viewport_revision = 4;
  next_row_revision = 3;
  geometry = geometry;
  at_bottom = true;
  cursor = none;
  scrollbar = none;
  stable_preview_line = [];
}

new_revisions : (new geometry (row_of (codes "$"))).row_revisions ≡ 2 ∷ []
unfolding new refresh_stable_preview reset_rows push_row saturating_add bump_viewport_revision
new_revisions = refl

two_rows-IsStamped : IsStamped two_rows
two_rows-IsStamped = record { paired = refl; below = omega arith }

run-same_revision_example :
    IsStamped (run two_rows (replaces 1 (row_of (codes "x")) ∷ bumps ∷ []))
    × (get_elem? (run two_rows (replaces 1 (row_of (codes "x")) ∷ bumps ∷ [])).rows 0
        ≡ some (row_of (codes "ls")))
unfolding run step replace_row write_row saturating_add bump_viewport_revision
run-same_revision_example =
    run-same_revision two_rows (replaces 1 (row_of (codes "x")) ∷ bumps ∷ []) 0 2 two_rows-IsStamped
      (omega arith) refl refl

get_elem?-replace_row_example :
    get_elem? (replace_row two_rows 4 (row_of (codes "x"))).rows 3 ≡ some default_row
get_elem?-replace_row_example = get_elem?-replace_row two_rows 4 (row_of (codes "x")) 3
