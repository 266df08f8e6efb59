-- ===== src/Terminal/BoundedText/Contents.antt =====
-- What append_bounded_text of crates/seance-terminal/src/turns.rs puts into a buffer.
use seance.Prelude.{ℕ, ◌-◌, [], ◌∷◌, Bool, true, arith, All, All-append, Text, text_len, false}
use seance.Terminal.BoundedText.{
  truncation_marker, append_truncation_marker, append_cut, append_bounded_text,
}
use seance.Terminal.BoundedText.Boundary.{All-fit}
use seance.Terminal.BoundedText.Append.{append_truncation_marker-fit, append_cut-fit}

module _ {κ} (P : ℕ → Type κ) (marker : All P truncation_marker) where
  All-marker :
      (buffer : Text) (max_bytes : ℕ)
      → All P buffer
      → All P (append_truncation_marker buffer max_bytes)
  All-marker buffer max_bytes h =
      rw append_truncation_marker-fit
        (All-append P buffer _ h (All-fit P truncation_marker _ marker))

  All-cut :
      (buffer incoming : Text) (max_bytes : ℕ)
      → All P buffer
      → All P incoming
      → All P (append_cut buffer incoming max_bytes (max_bytes - text_len buffer))
  All-cut buffer incoming max_bytes h k = rw append_cut-fit (
      All-append P _ _ (All-append P buffer _ h (All-fit P incoming _ k))
        (All-fit P truncation_marker _ marker))

  pub All-append_bounded_text :
      (buffer incoming : Text) (max_bytes : ℕ) (truncated : Bool)
      → All P buffer
      → All P incoming
      → All P (append_bounded_text buffer incoming max_bytes truncated).0
  unfolding append_bounded_text
  All-append_bounded_text buffer [] max_bytes truncated h k = h
  All-append_bounded_text buffer (c ∷ cs) max_bytes true h k = h
  All-append_bounded_text buffer (c ∷ cs) max_bytes false h k = ground (
    arith,
    All-marker buffer max_bytes h,
    All-cut buffer (c ∷ cs) max_bytes h k,
    All-append P buffer (c ∷ cs) h k,
  )
