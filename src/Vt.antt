-- ===== src/Vt.antt =====
-- What the program uses of the `vt100` crate, which is not in this repository: a terminal that consumes
-- bytes and calls `vt100::Callbacks` for what it does not handle. Nothing is assumed of it.
use pterm.Common.{ℕ, Bool, List, Option, none, some, Bytes}
use pterm.Kitty.{Params}
use pterm.Callbacks.{SessionCallbacks}
use pterm.Callbacks.Csi.{unhandled_csi}
use pterm.Callbacks.Osc.{unhandled_escape, unhandled_osc, set_window_title, copy_to_clipboard}

-- A call of a callback. The first argument of `csi` is `screen.alternate_screen()` at the call, which
-- is all that a handler reads of the screen.
pub data Event : Type 0 where
  title : Bytes → Event
  csi : Bool → Option ℕ → Option ℕ → Params → ℕ → Event
  escape : Option ℕ → Option ℕ → ℕ → Event
  osc : List Bytes → Event
  clipboard : Bytes → Bytes → Event

pub record Vt100 : Type 1 where
  pub Screen : Type 0
  -- The screen after some bytes, and the callbacks made meanwhile, in order.
  pub process : Screen → Bytes → Screen × List Event
  pub state_formatted : Screen → Bytes
  pub alternate_screen : Screen → Bool
  -- rows, then columns
  pub set_size : ℕ → ℕ → Screen → Screen
  -- rows, columns, and the length of the scrollback
  pub new : ℕ → ℕ → ℕ → Screen
  -- `String::from_utf8_lossy` of the standard library, as bytes
  pub lossy : Bytes → Bytes

unfoldable pub handle_event : (Bytes → Bytes) → Event → SessionCallbacks → Option SessionCallbacks
handle_event lossy (title bytes) callbacks = some (set_window_title lossy bytes callbacks)
handle_event lossy (csi alternate i1 i2 params c) callbacks =
    unhandled_csi alternate i1 i2 params c callbacks
handle_event lossy (escape i1 i2 b) callbacks = unhandled_escape i1 i2 b callbacks
handle_event lossy (osc params) callbacks = unhandled_osc lossy params callbacks
handle_event lossy (clipboard ty text) callbacks = copy_to_clipboard ty text callbacks

unfoldable pub handle_events :
    (Bytes → Bytes) → List Event → SessionCallbacks → Option SessionCallbacks
handle_events lossy List.[] callbacks = some callbacks
handle_events lossy (List.◌∷◌ event events) callbacks = elim (handle_event lossy event callbacks) [
  | none ↦ none
  | some callbacks' ↦ handle_events lossy events callbacks'
]
