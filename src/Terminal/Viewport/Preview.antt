-- ===== src/Terminal/Viewport/Preview.antt =====
-- The preview line of ViewportCache, crates/seance-terminal/src/viewport.rs.
use mathlib.Core.List.{reverse, reverse-append, reverse-cons}
use seance.Prelude.{◌≡◌, refl, ◌∙◌, List, [], ◌∷◌, ◌++◌, true, false, All, All-append, append_assoc}
use seance.Terminal.Model.{TerminalRow, plain_text}
use seance.Terminal.Viewport.{ViewportCache, is_blank, find_preview, computed_preview_line}

abbrev pub BlankRow : TerminalRow → Type 0
BlankRow r = is_blank (plain_text r) ≡ true

All-reverse : (rs : List TerminalRow) → All BlankRow rs → All BlankRow (reverse rs)
All-reverse [] h = h
All-reverse (r ∷ rs) h =
    rw (reverse-cons r rs)
      (All-append BlankRow (reverse rs) (r ∷ []) (All-reverse rs h.1) (h.0, tt))

find_preview-skip :
    (blank rest : List TerminalRow)
    → All BlankRow blank
    → find_preview (blank ++ rest) ≡ find_preview rest
unfolding find_preview
find_preview-skip [] rest h = refl
find_preview-skip (r ∷ rs) rest h = rw h.0 (find_preview-skip rs rest h.1)

-- The preview is the text of the lowest row that is not blank.
pub computed_preview_line-lowest :
    (c : ViewportCache) (above below : List TerminalRow) (r : TerminalRow)
    → c.rows ≡ above ++ r ∷ below
    → is_blank (plain_text r) ≡ false
    → All BlankRow below
    → computed_preview_line c ≡ plain_text r
unfolding computed_preview_line
computed_preview_line-lowest c above below r e text blank =
    rw (e, reverse-append, reverse-cons, append_assoc)
      (find_preview-skip (reverse below) (r ∷ reverse above) (All-reverse below blank)
        ∙ (unfold find_preview in rw text))
