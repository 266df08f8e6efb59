-- ===== src/Terminal/Turns/Bytes.antt =====
-- The control bytes of crates/seance-terminal/src/turns.rs.
use seance.Prelude.{ℕ}

abbrev pub escape : ℕ
escape = 0x1b

abbrev pub backspace : ℕ
backspace = 0x08

abbrev pub delete : ℕ
delete = 0x7f

abbrev pub ctrl_u : ℕ
ctrl_u = 0x15
