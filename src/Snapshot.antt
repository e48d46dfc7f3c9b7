-- ===== src/Snapshot.antt =====
-- src/session.rs, `build_snapshot`: the escape sequences that rebuild the terminal in a client.
pub mod Layout
use pterm.Common.{
  ℕ, Bool, true, false, List, [], ◌∷◌, ◌++◌, Option, none, some, if◌then◌else◌, Bytes, codes,
  to_string,
}
use pterm.Kitty.{append_snapshot, csi}
use pterm.Callbacks.{SessionCallbacks, passthrough_sequences_formatted}
use pterm.Vt.{Vt100}

abbrev pub osc_start : Bytes
osc_start = 0x1b ∷ codes "]2;"

abbrev pub osc_stop : Bytes
osc_stop = 0x1b ∷ b'\\' ∷ []

-- The loop over `window_title_stack`.
append_titles : Bytes → List Bytes → Bytes
append_titles prefix [] = prefix
append_titles prefix (title ∷ titles) =
    append_titles (prefix ++ osc_start ++ title ++ osc_stop ++ csi "22;0t") titles

append_title : Bytes → Option Bytes → Bytes
append_title prefix none = prefix
append_title prefix (some title) = prefix ++ osc_start ++ title ++ osc_stop

append_link : Bytes → Option Bytes → Bytes
append_link prefix none = prefix
append_link prefix (some uri) = prefix ++ 0x1b ∷ codes "]8;;" ++ uri ++ osc_stop

append_cursor : Bytes → Option ℕ → Bytes
append_cursor snapshot none = snapshot
append_cursor snapshot (some ps) = snapshot ++ csi "" ++ to_string ps ++ codes " q"

abbrev is_empty : Bytes → Bool
is_empty [] = true
is_empty (b ∷ bs) = false

abbrev append_if : Bool → Bytes → Bytes → Bytes
append_if test bytes prefix = if test then prefix ++ bytes else prefix

module _ (vt : Vt100) where
  open vt use {Screen, state_formatted, alternate_screen}

  unfoldable pub build_prefix : Screen → SessionCallbacks → Bytes
  unfolding append_titles append_title append_link
  build_prefix screen callbacks =
      let states = callbacks.kitty_keyboard_states in
      let titles = append_titles [] callbacks.window_title_stack in
      let titled = append_title titles callbacks.window_title in
      let main = append_snapshot states.main titled in
      let alternate = append_snapshot states.alternate (main ++ csi "?1049h") in
      let keyboards = if alternate_screen screen then alternate else main in
      let focus = append_if callbacks.focus_tracking (csi "?1004h") keyboards in
      let synchronized = append_if callbacks.synchronized_output (csi "?2026h") focus in
      append_link synchronized callbacks.hyperlink_uri

  unfoldable pub build_snapshot : Screen → SessionCallbacks → Bytes
  unfolding append_cursor
  build_snapshot screen callbacks =
      let passthrough = passthrough_sequences_formatted callbacks in
      let prefix = build_prefix screen callbacks in
      let formatted = state_formatted screen in
      let snapshot = if is_empty prefix then formatted else prefix ++ formatted in
      let passed = if is_empty passthrough then snapshot else snapshot ++ passthrough in
      append_cursor passed callbacks.cursor_shape
