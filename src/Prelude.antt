-- ===== src/Prelude.antt =====
-- The names that the other modules share: the libraries', passed on, and those of the children:
-- Boolean tests, lists over the native numbers, and Rust's text and saturating arithmetic.
mod Tests
mod Lists
mod Str
mod Words
mod Equality
pub mod Assoc
pub mod Sort
pub mod Member
pub mod Split
pub mod SortBy
pub mod Compare
mod Fallible
pub use Tests.*
unfoldable pub use Lists.*
unfoldable pub use Str.*
unfoldable pub use Words.*
pub use Equality.{Eq, list_beq_iff}
unfoldable pub use Equality.{nat_eq, list_eq, pair_eq, list_beq}
pub use Fallible.{Result, ok, err, ◌>>=◌, ◌>>◌, ensure}
pub use Prim.Native.Nat.{ℕ, zero, suc, ◌+◌, ◌-◌, ◌*◌, ◌/◌, ◌%◌, ◌^◌, ◌≤◌, ◌<◌, min, max}
pub use mathlib.Core.Path.{◌≡◌, refl, sym, ap, ◌∙◌, subst, ◌≡⟨◌⟩◌, ◌∎}
pub use mathlib.Core.Logic.{◌≢◌, ◌↔◌, ◌⊎◌, inl, inr}
pub use mathlib.Core.Bool.{Bool, true, false, not, ◌&&◌, ◌||◌}
pub use mathlib.Core.Option.{Option, none, some}
pub use mathlib.Core.List.{List, [], ◌∷◌, ◌++◌, map, foldl, append-nil, append_assoc, foldl-append}
pub use native.Mathlib.Omega.{arith}
