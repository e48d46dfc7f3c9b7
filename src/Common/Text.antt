-- ===== src/Common/Text.antt =====
-- Numbers and byte strings as text, and the back end of a queue.
use Prim.Native.Nat.{ℕ, zero, suc, ◌+◌, ◌/◌, ◌%◌}
use mathlib.Core.Path.{◌≡◌, refl}
use mathlib.Core.Option.{Option, none, some}
use mathlib.Core.List.{List, [], ◌∷◌, ◌++◌}
use pterm.Common.Tests.{ltb, if◌then◌else◌}

decimal : ℕ → ℕ → List ℕ
decimal zero n = []
decimal (suc fuel) n =
    let more = decimal fuel (n / 10) ++ (b'0' + n % 10) ∷ [] in
    if ltb n 10 then (b'0' + n) ∷ [] else more

-- `to_string` of an unsigned integer: twenty digits are enough for 64 bits.
unfoldable pub to_string : ℕ → List ℕ
unfolding decimal
to_string = decimal 20

-- `pop_back` of a `VecDeque` or `pop` of a `Vec`; the back of the queue is the end of the list.
module _ {ℓ} {A : Type ℓ} where
  unfoldable pub pop_back : List A → Option (List A × A)
  pop_back [] = none
  pop_back (x ∷ xs) = elim (pop_back xs) [ none ↦ some ([], x) | some (ys, y) ↦ some (x ∷ ys, y) ]

module _ {ℓ} {A : Type ℓ} where
  pub pop_back-concat : (xs : List A) (x : A) → pop_back (xs ++ x ∷ []) ≡ some (xs, x)
  unfolding pop_back
  pop_back-concat [] x = refl
  pop_back-concat (y ∷ ys) x = rw (pop_back-concat ys x)
