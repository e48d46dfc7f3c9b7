-- ===== src/Common.antt =====
-- The names that the other modules share: the libraries', passed on, and those of two children.
mod Tests
mod Lists
mod Int
mod Slices
mod Text
pub use Tests.*
pub use Lists.*
pub use Int.*
pub use Slices.{codes, equal_iff, last}
pub use Text.{pop_back-concat}
unfoldable pub use Text.{to_string, pop_back}
unfoldable pub use Slices.{equal, starts_with, ends_with, last_part}
pub use Prim.Native.Nat.{bit_and, bit_or, ℕ, zero, suc, ◌+◌, ◌-◌, ◌*◌, ◌/◌, ◌%◌, ◌^◌, ◌≤◌, ◌<◌}
pub use mathlib.Core.Path.{◌≡◌, refl, sym, ap, ap₂, subst, ◌∙◌}
pub use mathlib.Core.Logic.{◌≢◌, ◌↔◌, ◌⊎◌, inl, inr}
pub use mathlib.Core.Bool.{Bool, true, false, not, ◌&&◌, ◌||◌}
pub use mathlib.Core.Option.{Option, none, some}
pub use mathlib.Core.List.{List, [], ◌∷◌, ◌++◌, append-nil, append_assoc}
pub use native.Mathlib.Omega.{arith}

-- A byte string: every element of one that the program handles is below 256.
abbrev pub Bytes : Type 0
Bytes = List ℕ

pub or_false : (a : Bool) → (a || false) ≡ a
or_false true = refl
or_false false = refl

pub or_true : (a : Bool) → (a || true) ≡ true
or_true true = refl
or_true false = refl
