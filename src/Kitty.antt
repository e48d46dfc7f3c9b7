-- ===== src/Kitty.antt =====
-- src/session.rs, `KittyKeyboardState`: the keyboard flags of one screen, the stack below them, and the
-- escape sequences that rebuild both in an attached terminal.
pub mod Stack
pub mod Replay
use Prim.Native.String.{String}
use pterm.Common.{
  ℕ, zero, suc, ◌-◌, ◌^◌, bit_and, bit_or, Bool, true, false, not, List, [], ◌∷◌, ◌++◌, Option,
  none, some, ltb, ◌==◌, if◌then◌else◌, length, Bytes, codes, to_string, pop_back,
}

pub record KittyKeyboardState : Type 0 where
  pub flags : ℕ
  pub stack : List ℕ

-- `KittyKeyboardState::default()`
abbrev pub initial : KittyKeyboardState
initial = record { flags = 0; stack = [] }

abbrev pub max_stack_depth : ℕ
max_stack_depth = 64

-- The parameters of a CSI sequence, each with its subparameters.
abbrev pub Params : Type 0
Params = List (List ℕ)

unfoldable pub first_param : Params → Option ℕ
first_param ((value ∷ _) ∷ _) = some value
first_param _ = none

-- `param_u32(params, idx)`; the conversion from u16 keeps the value.
unfoldable pub param_u32 : Params → ℕ → Option ℕ
param_u32 [] idx = none
param_u32 ([] ∷ _) zero = none
param_u32 ((value ∷ _) ∷ _) zero = some value
param_u32 (_ ∷ params) (suc idx) = param_u32 params idx

abbrev pub unwrap_or : ℕ → Option ℕ → ℕ
unwrap_or default none = default
unwrap_or default (some value) = value

-- The `while` loop of `push_current`. The queue it pops from holds more than the limit.
unfoldable pub drop_oldest : List ℕ → List ℕ
drop_oldest [] = []
drop_oldest (dropped ∷ stack) =
    let rest = drop_oldest stack in
    if ltb max_stack_depth (length (dropped ∷ stack)) then rest else dropped ∷ stack

unfoldable pub push_current : KittyKeyboardState → KittyKeyboardState
push_current state = record state { stack = drop_oldest (state.stack ++ state.flags ∷ []) }

-- The `for` loop over the entries to pop, with its `break` on an empty stack.
unfoldable pub pop_entries : ℕ → KittyKeyboardState → KittyKeyboardState
pop_entries zero state = state
pop_entries (suc count) state = elim (pop_back state.stack) [
  | none ↦ record state { flags = 0 }
  | some (stack, flags) ↦ pop_entries count (record { flags = flags; stack = stack })
]

-- The number of entries that `CSI < n u` pops: 1 for `Some(0) | None`.
abbrev pub pop_count : Option ℕ → ℕ
pop_count none = 1
pop_count (some n) = if n == 0 then 1 else n

-- `flags & !mask` on u32
abbrev pub clear_bits : ℕ → ℕ → ℕ
clear_bits flags mask = bit_and flags (2 ^ 32 - 1 - mask)

-- `CSI = flags ; mode u`. An unknown mode changes nothing and is reported.
unfoldable pub set_flags : ℕ → ℕ → KittyKeyboardState → KittyKeyboardState × Bool
set_flags flags mode state =
    if mode == 1
    then (record state { flags = flags }, true)
    else if mode == 2
    then (record state { flags = bit_or state.flags flags }, true)
    else if mode == 3
    then (record state { flags = clear_bits state.flags flags }, true)
    else (state, false)

-- `update_kitty_keyboard_state` on the state of the active screen, and its result.
unfoldable pub update : Option ℕ → Params → KittyKeyboardState → KittyKeyboardState × Bool
unfolding first_param param_u32 set_flags push_current pop_entries
update none params state = (state, false)
update (some i1) params state =
    if i1 == b'='
    then set_flags (unwrap_or 0 (first_param params)) (unwrap_or 1 (param_u32 params 1)) state
    else if i1 == b'>'
    then (record (push_current state) { flags = unwrap_or 0 (first_param params) }, true)
    else if i1 == b'<'
    then (pop_entries (pop_count (first_param params)) state, true)
    else (state, false)

abbrev pub csi : String → Bytes
csi s = 0x1b ∷ b'[' ∷ codes s

unfoldable pub push_set_mode : Bytes → ℕ → Bytes
push_set_mode snapshot flags = snapshot ++ csi "=" ++ to_string flags ++ codes ";1u"

unfoldable pub push_stack : Bytes → ℕ → Bytes
push_stack snapshot flags = snapshot ++ csi ">" ++ to_string flags ++ codes "u"

push_stacks : Bytes → List ℕ → Bytes
push_stacks snapshot [] = snapshot
push_stacks snapshot (flags ∷ rest) = push_stacks (push_stack snapshot flags) rest

append_entries : Bytes → ℕ → List ℕ → Bytes
append_entries snapshot flags [] =
    if not (flags == 0) then push_set_mode snapshot flags else snapshot
append_entries snapshot flags (first ∷ rest) =
    let opened = if not (first == 0) then push_set_mode snapshot first else snapshot in
    push_stack (push_stacks opened rest) flags

unfoldable pub append_snapshot : KittyKeyboardState → Bytes → Bytes
unfolding push_stacks append_entries push_set_mode push_stack
append_snapshot state snapshot =
    append_entries (snapshot ++ csi "<u" ++ csi "=0u") state.flags state.stack
