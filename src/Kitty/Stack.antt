-- ===== src/Kitty/Stack.antt =====
-- The stack of keyboard flags: its bound, and what pushes and pops make of it.
use pterm.Common.{
  ℕ, zero, suc, ◌<◌, ◌≤◌, ◌≡◌, refl, ap, arith, Bool-cases, Option-cases, inl, inr, List, [], ◌∷◌,
  ◌++◌, Option, none, some, ltb, length, length-append, pop_back, pop_back-concat,
}
use pterm.Kitty.{
  KittyKeyboardState, max_stack_depth, Params, first_param, drop_oldest, pop_entries, update,
  pop_count,
}

abbrev pub IsBounded : KittyKeyboardState → Type 0
IsBounded s = length s.stack ≤ max_stack_depth

drop_oldest-le : (xs : List ℕ) → length (drop_oldest xs) ≤ max_stack_depth
unfolding drop_oldest
drop_oldest-le [] = omega arith
drop_oldest-le (x ∷ xs) = ground (arith, drop_oldest-le xs)

pub drop_oldest-fits : (xs : List ℕ) → length xs ≤ max_stack_depth → drop_oldest xs ≡ xs
unfolding drop_oldest
drop_oldest-fits [] h = refl
drop_oldest-fits (x ∷ xs) h = ground arith

-- What is dropped comes from the old end: the newest entries stay, in order.
pub drop_oldest-suffix : (xs : List ℕ) → (dropped : List ℕ) × (dropped ++ drop_oldest xs ≡ xs)
unfolding drop_oldest
drop_oldest-suffix [] = ([], refl)
drop_oldest-suffix (x ∷ xs) = elim (Bool-cases (ltb max_stack_depth (length (x ∷ xs)))) [
  | inl over ↦ let (dropped, e) = drop_oldest-suffix xs in (x ∷ dropped, rw over (ap (◌∷◌ x) e))
  | inr fits ↦ ([], rw fits)
]

pub pop_back-none : (xs : List ℕ) → pop_back xs ≡ none → xs ≡ []
unfolding pop_back
pop_back-none [] h = refl
pop_back-none (x ∷ xs) h = ground arith

pop_back-length :
    (xs ys : List ℕ) (y : ℕ) → pop_back xs ≡ some (ys, y) → length xs ≡ suc (length ys)
unfolding pop_back
pop_back-length [] ys y h = cc
pop_back-length (x ∷ xs) ys y h = elim (Option-cases (pop_back xs)) [
  | inl e ↦ ground (arith, pop_back-none xs e)
  | inr ((zs, z), e) ↦ ground (arith, pop_back-length xs zs z e)
]

pop_entries-IsBounded : (n : ℕ) (s : KittyKeyboardState) → IsBounded s → IsBounded (pop_entries n s)
unfolding pop_entries
pop_entries-IsBounded zero s h = h
pop_entries-IsBounded (suc n) s h = elim (Option-cases (pop_back s.stack)) [
  | inl e ↦ rw (e, pop_entries) h
  | inr ((ys, y), e) ↦
      rw (e, pop_entries)
        (pop_entries-IsBounded n _ (omega (arith, pop_back-length s.stack ys y e)))
]

-- Every keyboard sequence, known or not, keeps a stack within its depth that is within it before.
pub update-IsBounded :
    (i1 : Option ℕ) (params : Params) (s : KittyKeyboardState)
    → IsBounded s
    → IsBounded (update i1 params s).0
unfolding update
update-IsBounded none params s h = h
update-IsBounded (some c) params s h = ground (
  arith,
  drop_oldest-le (s.stack ++ s.flags ∷ []),
  pop_entries-IsBounded (pop_count (first_param params)) s h,
)

-- While the stack has room, a pop undoes a push whatever flags the push set.
pub pop-push :
    (s : KittyKeyboardState) (flags : ℕ)
    → length s.stack < max_stack_depth
    → (update (some b'<') [] (update (some b'>') ((flags ∷ []) ∷ []) s).0).0 ≡ s
unfolding update
pop-push s flags h = rw (
  drop_oldest-fits (s.stack ++ s.flags ∷ []) (omega (arith, length-append s.stack (s.flags ∷ []))),
  pop_entries,
  pop_back-concat s.stack s.flags,
)

-- Popping more entries than there are leaves no flags and an empty stack.
pub pop_entries_past :
    (n : ℕ) (s : KittyKeyboardState)
    → length s.stack < n
    → pop_entries n s ≡ record { flags = 0; stack = [] }
unfolding pop_entries
pop_entries_past zero s h = absurd (omega arith)
pop_entries_past (suc n) s h = elim (Option-cases (pop_back s.stack)) [
  | inl e ↦ rw (e, pop_entries, pop_back-none s.stack e)
  | inr ((ys, y), e) ↦
      rw (e, pop_entries) (pop_entries_past n _ (omega (arith, pop_back-length s.stack ys y e)))
]
