-- ===== src/Terminal.antt =====
-- crates/seance-terminal: terminal state below the renderer.
pub mod BoundedText
pub mod Turns
pub mod Model
pub mod Viewport
