-- ===== src/Callbacks/Csi.antt =====
-- src/session.rs, `unhandled_csi`, and the tests and updates that it dispatches on.
use pterm.Common.{
  ℕ, ◌+◌, Bool, true, false, not, ◌&&◌, ◌||◌, [], ◌∷◌, ◌++◌, Option, none, some, is_byte, is_none,
  ltb, ◌==◌, if◌then◌else◌, length, Bytes, pop_back,
}
use pterm.Kitty
use pterm.Kitty.{Params, KittyKeyboardState, first_param}
use pterm.Callbacks.{SessionCallbacks, push_passthrough_sequence}
use pterm.Callbacks.Format.{format_unhandled_csi}

unfoldable pub default_da_params : Params → Bool
default_da_params [] = true
default_da_params ([] ∷ []) = true
default_da_params ((value ∷ []) ∷ []) = value == 0
default_da_params _ = false

abbrev is_set_or_reset : ℕ → Bool
is_set_or_reset c = c == b'h' || c == b'l'

abbrev pub is_passthrough_mode : Option ℕ → Bool
is_passthrough_mode none = false
is_passthrough_mode (some mode) = mode == 12 || mode == 69

unfoldable pub is_passthrough_private_mode : Option ℕ → Option ℕ → Params → ℕ → Bool
unfolding first_param
is_passthrough_private_mode i1 i2 params c =
    is_byte b'?' i1 && is_none i2 && is_set_or_reset c && is_passthrough_mode (first_param params)

unfoldable pub is_kitty_keyboard_protocol : Option ℕ → Option ℕ → ℕ → Bool
is_kitty_keyboard_protocol i1 i2 c =
    is_none i2 && c == b'u' && (is_byte b'>' i1 || is_byte b'=' i1 || is_byte b'<' i1)

abbrev sgr_subparams : Params → Bool
sgr_subparams [] = false
sgr_subparams ([] ∷ _) = false
sgr_subparams ((value ∷ rest) ∷ _) = value == 4 && ltb 1 (length (value ∷ rest)) || value == 58

unfoldable pub is_passthrough_sgr_subparams : Option ℕ → Option ℕ → Params → ℕ → Bool
is_passthrough_sgr_subparams i1 i2 params c =
    if not (is_none i1) || not (is_none i2) || not (c == b'm') then false else sgr_subparams params

abbrev set_private_mode : Option ℕ → ℕ → SessionCallbacks → SessionCallbacks × Bool
set_private_mode none c callbacks = (callbacks, false)
set_private_mode (some mode) c callbacks =
    if mode == 1004
    then (record callbacks { focus_tracking = c == b'h' }, true)
    else if mode == 2026
    then (record callbacks { synchronized_output = c == b'h' }, true)
    else (callbacks, false)

unfoldable pub update_private_mode_state : Params → ℕ → SessionCallbacks → SessionCallbacks × Bool
unfolding first_param
update_private_mode_state params c callbacks =
    if not (is_set_or_reset c)
    then (callbacks, false)
    else set_private_mode (first_param params) c callbacks

-- `update_kitty_keyboard_state`, on the state of the screen that is shown.
unfoldable pub update_kitty_keyboard_state :
    Bool → Option ℕ → Params → SessionCallbacks → SessionCallbacks × Bool
update_kitty_keyboard_state true i1 params callbacks =
    let states = callbacks.kitty_keyboard_states in
    let (state, done) = Kitty.update i1 params states.alternate in
    (record callbacks { kitty_keyboard_states = record states { alternate = state } }, done)
update_kitty_keyboard_state false i1 params callbacks =
    let states = callbacks.kitty_keyboard_states in
    let (state, done) = Kitty.update i1 params states.main in
    (record callbacks { kitty_keyboard_states = record states { main = state } }, done)

abbrev pub title_or_empty : Option Bytes → Bytes
title_or_empty none = []
title_or_empty (some title) = title

abbrev pub title_of : Bytes → Option Bytes
title_of [] = none
title_of (c ∷ cs) = some (c ∷ cs)

unfoldable pub save_title : SessionCallbacks → SessionCallbacks
save_title callbacks = record callbacks {
  window_title_stack = callbacks.window_title_stack ++ title_or_empty callbacks.window_title ∷ [];
}

unfoldable pub restore_title : SessionCallbacks → SessionCallbacks
restore_title callbacks = elim (pop_back callbacks.window_title_stack) [
  | none ↦ callbacks
  | some (stack, title) ↦ record callbacks {
    window_title_stack = stack;
    window_title = title_of title;
  }
]

-- `c == 't'`: 22 saves the title, 23 restores it, and all else is passed through.
unfoldable pub title_operation : Option ℕ → Bytes → SessionCallbacks → Option SessionCallbacks
title_operation none seq callbacks = push_passthrough_sequence seq callbacks
title_operation (some op) seq callbacks =
    if op == 22
    then some (save_title callbacks)
    else if op == 23
    then some (restore_title callbacks)
    else push_passthrough_sequence seq callbacks

-- A device-attribute request is counted; `seq` is the sequence as written.
unfoldable pub count_da_query : Option ℕ → Bytes → SessionCallbacks → Option SessionCallbacks
count_da_query none seq callbacks =
    some (record callbacks { pending_da1_queries = callbacks.pending_da1_queries + 1 })
count_da_query (some i1) seq callbacks =
    if i1 == b'>'
    then some (record callbacks { pending_da2_queries = callbacks.pending_da2_queries + 1 })
    else push_passthrough_sequence seq callbacks

abbrev pub u8_of : Option ℕ → Option ℕ
u8_of none = none
u8_of (some value) = if ltb value 256 then some value else none

-- What `unhandled_csi` does behind the cursor shape and the private modes.
unfoldable pub dispatch_csi :
    Bool → Option ℕ → Option ℕ → Params → ℕ → SessionCallbacks → Option SessionCallbacks
unfolding first_param
dispatch_csi alternate i1 i2 params c callbacks =
    let seq = format_unhandled_csi i1 i2 params c in
    let (callbacks', done) = update_kitty_keyboard_state alternate i1 params callbacks in
    if is_kitty_keyboard_protocol i1 i2 c
    then if done then some callbacks' else push_passthrough_sequence seq callbacks'
    else if is_passthrough_private_mode i1 i2 params c
        || is_passthrough_sgr_subparams i1 i2 params c
    then push_passthrough_sequence seq callbacks
    else if is_none i1 && is_none i2 && c == b't'
    then title_operation (first_param params) seq callbacks
    else if not (c == b'c') || not (is_none i2) || not (default_da_params params)
    then some callbacks
    else count_da_query i1 seq callbacks

-- `alternate` is `screen.alternate_screen()`.
unfoldable pub unhandled_csi :
    Bool → Option ℕ → Option ℕ → Params → ℕ → SessionCallbacks → Option SessionCallbacks
unfolding first_param update_private_mode_state
unhandled_csi alternate i1 i2 params c callbacks =
    let (callbacks', handled) = update_private_mode_state params c callbacks in
    if is_byte b' ' i1 && is_none i2 && c == b'q'
    then some (record callbacks { cursor_shape = u8_of (first_param params) })
    else if is_byte b'?' i1 && is_none i2 && handled
    then if is_passthrough_private_mode i1 i2 params c
      then push_passthrough_sequence (format_unhandled_csi i1 i2 params c) callbacks'
      else some callbacks'
    else dispatch_csi alternate i1 i2 params c callbacks
