-- ===== src/Terminal/Model.antt =====
-- The types of crates/seance-terminal/src/model.rs that the viewport cache holds. The u8, u16 and
-- u64 fields are numbers; nothing here computes with them.
use native.Mathlib.Decide.{ℕ_discrete}
use seance.Prelude.{ℕ, Bool, ltb, Option, List, [], ◌∷◌, ◌++◌, Text, Result, ok, ensure, ◌>>◌}

pub record TerminalSize : Type 0 where
  pub cols : ℕ
  pub rows : ℕ

pub record TerminalPixelSize : Type 0 where
  pub width_px : ℕ
  pub height_px : ℕ

pub record TerminalGeometry : Type 0 where
  pub size : TerminalSize
  pub pixel_size : TerminalPixelSize
  pub cell_width_px : ℕ
  pub cell_height_px : ℕ

pub data GeometryError : Type 0 where
  zero_cols zero_rows zero_cell_width zero_cell_height : GeometryError

-- TerminalGeometry::new, with its `ensure!` lines in order.
pub new_geometry : ℕ → ℕ → ℕ → ℕ → ℕ → ℕ → Result GeometryError TerminalGeometry
new_geometry cols rows width_px height_px cell_width_px cell_height_px = do
  ensure (ltb 0 cols) zero_cols
  ensure (ltb 0 rows) zero_rows
  ensure (ltb 0 cell_width_px) zero_cell_width
  ensure (ltb 0 cell_height_px) zero_cell_height
  ok (record {
    size = record { cols = cols; rows = rows };
    pixel_size = record { width_px = width_px; height_px = height_px };
    cell_width_px = cell_width_px;
    cell_height_px = cell_height_px;
  })

pub record TerminalColor : Type 0 where
  pub r : ℕ
  pub g : ℕ
  pub b : ℕ

pub record TerminalCellStyle : Type 0 where
  pub foreground : Option TerminalColor
  pub background : Option TerminalColor
  pub bold : Bool
  pub italic : Bool
  pub faint : Bool
  pub underline : Bool
  pub inverse : Bool
  pub invisible : Bool

pub record TerminalCell : Type 0 where
  pub text : Text
  pub style : TerminalCellStyle
  pub width : ℕ

pub record TerminalRow : Type 0 where
  pub cells : List TerminalCell

-- TerminalRow::default()
abbrev pub default_row : TerminalRow
default_row = record { cells = [] }

concat : List TerminalCell → Text
concat [] = []
concat (cell ∷ cells) = cell.text ++ concat cells

unfoldable pub plain_text : TerminalRow → Text
unfolding concat
plain_text row = concat row.cells

pub record TerminalCursor : Type 0 where
  pub x : ℕ
  pub y : ℕ
  pub at_wide_tail : Bool

pub data TerminalCursorVisualStyle : Type 0 where
  bar block underline block_hollow : TerminalCursorVisualStyle

pub record TerminalCursorState : Type 0 where
  pub position : TerminalCursor
  pub visual_style : TerminalCursorVisualStyle
  pub visible : Bool
  pub blinking : Bool
  pub color : Option TerminalColor

pub record TerminalScrollbarState : Type 0 where
  pub total_rows : ℕ
  pub offset_rows : ℕ
  pub visible_rows : ℕ

pub data TerminalScreenKind : Type 0 where
  primary alternate : TerminalScreenKind

pub record SessionSummary : Type 0 where
  pub exit_status : Option Text
  pub preview_line : Text
  pub viewport_revision : ℕ
  pub scrollback_rows : ℕ
  pub active_screen : TerminalScreenKind
  pub mouse_tracking : Bool
  pub at_bottom : Bool

pub record TerminalViewportSnapshot : Type 0 where
  pub rows : List TerminalRow
  pub row_revisions : List ℕ
  pub cursor : Option TerminalCursorState
  pub scrollbar : Option TerminalScrollbarState
  pub scroll_offset_rows : ℕ
  pub revision : ℕ
  pub cols : ℕ
  pub rows_visible : ℕ

-- The derived `==` of the cursor and of the scrollbar.
pub cursor_discrete : Discrete (Option TerminalCursorState)
cursor_discrete = hlevel ℕ_discrete

pub scrollbar_discrete : Discrete (Option TerminalScrollbarState)
scrollbar_discrete = hlevel ℕ_discrete
