-- ===== src/Callbacks.antt =====
-- src/session.rs, `SessionCallbacks`: what a session remembers of the sequences that the vt100 parser
-- does not handle, and the bounded queue of sequences to pass through. A handler returns the new
-- state, or `none` where the source would panic.
pub mod Queue
pub mod Format
pub mod Csi
pub mod Osc
pub mod Invariant
pub mod Modes
use pterm.Common.{
  ℕ, ◌+◌, ◌-◌, ◌*◌, Bool, true, false, ◌&&◌, ◌||◌, List, [], ◌∷◌, ◌++◌, Option, none, some, ltb,
  ◌==◌, if◌then◌else◌, length, Bytes,
}
use pterm.Kitty.{KittyKeyboardState}
use pterm.Kitty

pub record ScreenKittyKeyboardStates : Type 0 where
  pub main : KittyKeyboardState
  pub alternate : KittyKeyboardState

pub record SessionCallbacks : Type 0 where
  pub window_title : Option Bytes
  pub window_title_stack : List Bytes
  pub pending_da1_queries : ℕ
  pub pending_da2_queries : ℕ
  pub cursor_shape : Option ℕ
  pub kitty_keyboard_states : ScreenKittyKeyboardStates
  pub focus_tracking : Bool
  pub synchronized_output : Bool
  pub hyperlink_uri : Option Bytes
  pub passthrough_sequences : List Bytes
  pub passthrough_bytes : ℕ

-- `SessionCallbacks::default()`
abbrev pub initial : SessionCallbacks
initial = record {
  window_title = none;
  window_title_stack = [];
  pending_da1_queries = 0;
  pending_da2_queries = 0;
  cursor_shape = none;
  kitty_keyboard_states = record { main = Kitty.initial; alternate = Kitty.initial };
  focus_tracking = false;
  synchronized_output = false;
  hyperlink_uri = none;
  passthrough_sequences = [];
  passthrough_bytes = 0;
}

abbrev pub max_passthrough_sequences : ℕ
max_passthrough_sequences = 256

abbrev pub max_passthrough_bytes : ℕ
max_passthrough_bytes = 16 * 1024

abbrev pub over_limit : List Bytes → ℕ → Bool
over_limit queue bytes =
    ltb max_passthrough_sequences (length queue) || ltb max_passthrough_bytes bytes

-- The `while` loop of `push_passthrough_sequence` on the queue and its byte count. It panics if the
-- queue runs empty, or if the count would fall below zero.
unfoldable pub evict : List Bytes → ℕ → Option (List Bytes × ℕ)
evict [] bytes = if over_limit [] bytes then none else some ([], bytes)
evict (removed ∷ queue) bytes =
    let more = evict queue (bytes - length removed) in
    if over_limit (removed ∷ queue) bytes
    then if ltb bytes (length removed) then none else more
    else some (removed ∷ queue, bytes)

abbrev pub with_queue : SessionCallbacks → Option (List Bytes × ℕ) → Option SessionCallbacks
with_queue callbacks none = none
with_queue callbacks (some (queue, bytes)) =
    some (record callbacks { passthrough_sequences = queue; passthrough_bytes = bytes })

unfoldable pub push_passthrough_sequence : Bytes → SessionCallbacks → Option SessionCallbacks
push_passthrough_sequence [] callbacks = some callbacks
push_passthrough_sequence (byte ∷ bytes) callbacks =
    let seq = byte ∷ bytes in
    with_queue callbacks (
      evict (callbacks.passthrough_sequences ++ seq ∷ [])
        (callbacks.passthrough_bytes + length seq))

concat_onto : Bytes → List Bytes → Bytes
concat_onto bytes [] = bytes
concat_onto bytes (seq ∷ seqs) = concat_onto (bytes ++ seq) seqs

unfoldable pub passthrough_sequences_formatted : SessionCallbacks → Bytes
unfolding concat_onto
passthrough_sequences_formatted callbacks = concat_onto [] callbacks.passthrough_sequences

-- The counts of queries, which are set back to zero.
unfoldable pub take_pending_da_queries : SessionCallbacks → (ℕ × ℕ) × SessionCallbacks
take_pending_da_queries callbacks = (
  (callbacks.pending_da1_queries, callbacks.pending_da2_queries),
  record callbacks { pending_da1_queries = 0; pending_da2_queries = 0 },
)
