-- ===== src/Snapshot/Layout.antt =====
-- The parts of a snapshot, in order.
use pterm.Common.{
  if◌then◌else◌, codes, to_string, ℕ, ◌≡◌, refl, sym, ap, ◌∙◌, Bool, true, false, Option, none,
  some, List, [], ◌∷◌, ◌++◌, append-nil, append_assoc, Bytes,
}
use pterm.Kitty.{csi}
use pterm.Kitty.Replay.{commands, render, append_snapshot-render}
use pterm.Callbacks.Queue.{concat, passthrough_sequences_formatted-concat}
use pterm.Vt.{Vt100}
use pterm.Callbacks.{SessionCallbacks}
use pterm.Snapshot.{
  append_if, is_empty, append_titles, append_title, append_link, append_cursor, build_prefix,
  build_snapshot, osc_start, osc_stop,
}

abbrev saved_titles : List Bytes → Bytes
saved_titles [] = []
saved_titles (title ∷ titles) =
    osc_start ++ (title ++ (osc_stop ++ (csi "22;0t" ++ saved_titles titles)))

abbrev current_title : Option Bytes → Bytes
current_title none = []
current_title (some title) = osc_start ++ (title ++ osc_stop)

abbrev open_link : Option Bytes → Bytes
open_link none = []
open_link (some uri) = 0x1b ∷ codes "]8;;" ++ (uri ++ osc_stop)

abbrev pub cursor : Option ℕ → Bytes
cursor none = []
cursor (some ps) = csi "" ++ (to_string ps ++ codes " q")

abbrev keyboards : Bool → SessionCallbacks → Bytes
keyboards alternate callbacks =
    let states = callbacks.kitty_keyboard_states in
    render (commands states.main)
    ++ (if alternate then csi "?1049h" ++ render (commands states.alternate) else [])

-- What stands before the screen: the saved titles and the title, the keyboards of the screens in use,
-- the private modes, and the open hyperlink.
abbrev pub prefix_of : Bool → SessionCallbacks → Bytes
prefix_of alternate callbacks =
    saved_titles callbacks.window_title_stack
    ++ (current_title callbacks.window_title
        ++ (keyboards alternate callbacks
            ++ ((if callbacks.focus_tracking then csi "?1004h" else [])
                ++ ((if callbacks.synchronized_output then csi "?2026h" else [])
                    ++ open_link callbacks.hyperlink_uri))))

append_titles-saved :
    (titles : List Bytes) (prefix : Bytes)
    → append_titles prefix titles ≡ prefix ++ saved_titles titles
unfolding append_titles
append_titles-saved [] prefix = sym (append-nil prefix)
append_titles-saved (title ∷ titles) prefix = append_titles-saved titles _ ∙ simp append_assoc

append_title-current :
    (title : Option Bytes) (prefix : Bytes)
    → append_title prefix title ≡ prefix ++ current_title title
unfolding append_title
append_title-current none prefix = sym (append-nil prefix)
append_title-current (some title) prefix = simp append_assoc

append_link-open :
    (uri : Option Bytes) (prefix : Bytes) → append_link prefix uri ≡ prefix ++ open_link uri
unfolding append_link
append_link-open none prefix = sym (append-nil prefix)
append_link-open (some title) prefix = simp append_assoc

append_cursor-cursor :
    (ps : Option ℕ) (prefix : Bytes) → append_cursor prefix ps ≡ prefix ++ cursor ps
unfolding append_cursor
append_cursor-cursor none prefix = sym (append-nil prefix)
append_cursor-cursor (some ps) prefix = simp append_assoc

modes :
    (alt focus sync : Bool) (titles main alternate : Bytes)
    → append_if sync (csi "?2026h") (
        append_if focus
          (csi "?1004h")
          (if alt then (titles ++ main) ++ csi "?1049h" ++ alternate else titles ++ main))
      ≡ titles
        ++ ((main ++ (if alt then csi "?1049h" ++ alternate else []))
            ++ ((if focus then csi "?1004h" else []) ++ (if sync then csi "?2026h" else [])))
modes true true true titles main alternate = simp append_assoc
modes true true false titles main alternate = simp (append_assoc, append-nil)
modes true false true titles main alternate = simp append_assoc
modes true false false titles main alternate = simp (append_assoc, append-nil)
modes false true true titles main alternate = simp (append_assoc, append-nil)
modes false true false titles main alternate = simp (append_assoc, append-nil)
modes false false true titles main alternate = simp (append_assoc, append-nil)
modes false false false titles main alternate = simp append-nil

is_empty-prefix : (p x : Bytes) → (if is_empty p then x else p ++ x) ≡ p ++ x
is_empty-prefix [] x = refl
is_empty-prefix (b ∷ bs) x = refl

is_empty-suffix : (q x : Bytes) → (if is_empty q then x else x ++ q) ≡ x ++ q
is_empty-suffix [] x = sym (append-nil x)
is_empty-suffix (b ∷ bs) x = refl

module _ (vt : Vt100) where
  open vt use {Screen, state_formatted, alternate_screen}

  build_prefix-prefix_of :
      (screen : Screen) (callbacks : SessionCallbacks)
      → build_prefix vt screen callbacks ≡ prefix_of (alternate_screen screen) callbacks
  unfolding build_prefix
  build_prefix-prefix_of screen callbacks =
      let states = callbacks.kitty_keyboard_states in
      rw
        (
          append_link-open,
          append_titles-saved,
          append_title-current,
          append_snapshot-render states.alternate,
          append_snapshot-render states.main,
        )
        (ap (λ t. t ++ open_link callbacks.hyperlink_uri)
            (modes (alternate_screen screen) callbacks.focus_tracking callbacks.synchronized_output
              _ (render (commands states.main)) (render (commands states.alternate)))
          ∙ simp append_assoc)

  -- A snapshot is the title stack and the title, the keyboard states of the screens in use, the
  -- private modes, the open hyperlink, the formatted screen, the sequences passed through and the
  -- cursor shape, in this order.
  pub build_snapshot-layout :
      (screen : Screen) (callbacks : SessionCallbacks)
      → build_snapshot vt screen callbacks
        ≡ prefix_of (alternate_screen screen) callbacks
          ++ (state_formatted screen
              ++ (concat callbacks.passthrough_sequences ++ cursor callbacks.cursor_shape))
  unfolding build_snapshot
  build_snapshot-layout screen callbacks =
      rw
        (
          append_cursor-cursor,
          is_empty-suffix,
          is_empty-prefix,
          build_prefix-prefix_of screen callbacks,
          passthrough_sequences_formatted-concat,
        )
        (simp append_assoc)
