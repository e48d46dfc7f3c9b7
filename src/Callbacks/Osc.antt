-- ===== src/Callbacks/Osc.antt =====
-- src/session.rs: the other handlers of `vt100::Callbacks`. `lossy` is `String::from_utf8_lossy`, as
-- bytes; the standard library defines it.
use pterm.Common.{
  ℕ, Bool, true, false, not, List, [], ◌∷◌, Option, none, some, if◌then◌else◌, Bytes, codes, equal,
  last,
}
use pterm.Callbacks.{SessionCallbacks, push_passthrough_sequence}
use pterm.Callbacks.Format.{format_unhandled_escape, format_unhandled_osc, format_clipboard_copy}

unfoldable pub unhandled_escape :
    Option ℕ → Option ℕ → ℕ → SessionCallbacks → Option SessionCallbacks
unhandled_escape i1 i2 b = push_passthrough_sequence (format_unhandled_escape i1 i2 b)

abbrev pub is_query_param : Option Bytes → Bool
is_query_param none = false
is_query_param (some param) = equal param (codes "?")

unfoldable pub is_passthrough_osc : List Bytes → Bool
is_passthrough_osc params = not (is_query_param (last params))

unfoldable pub set_window_title : (Bytes → Bytes) → Bytes → SessionCallbacks → SessionCallbacks
set_window_title lossy title callbacks = record callbacks { window_title = some (lossy title) }

abbrev set_hyperlink : (Bytes → Bytes) → Bytes → SessionCallbacks → SessionCallbacks
set_hyperlink lossy [] callbacks = record callbacks { hyperlink_uri = none }
set_hyperlink lossy (b ∷ bs) callbacks = record callbacks { hyperlink_uri = some (lossy (b ∷ bs)) }

-- `params.first() == "8"`, and at least three parameters
unfoldable pub update_hyperlink_state :
    (Bytes → Bytes) → List Bytes → SessionCallbacks → SessionCallbacks × Bool
update_hyperlink_state lossy (kind ∷ options ∷ uri ∷ rest) callbacks =
    if equal kind (codes "8") then (set_hyperlink lossy uri callbacks, true) else (callbacks, false)
update_hyperlink_state lossy _ callbacks = (callbacks, false)

unfoldable pub unhandled_osc :
    (Bytes → Bytes) → List Bytes → SessionCallbacks → Option SessionCallbacks
unhandled_osc lossy params callbacks =
    let (callbacks', done) = update_hyperlink_state lossy params callbacks in
    if done
    then some callbacks'
    else if is_passthrough_osc params
    then push_passthrough_sequence (format_unhandled_osc params) callbacks'
    else some callbacks'

unfoldable pub copy_to_clipboard : Bytes → Bytes → SessionCallbacks → Option SessionCallbacks
copy_to_clipboard ty text = push_passthrough_sequence (format_clipboard_copy ty text)
