-- ===== src/Callbacks/Modes.antt =====
-- Window titles, private modes and device queries through `unhandled_csi`.
use pterm.Callbacks.Osc.{set_window_title}
use pterm.Kitty.{Params}
use pterm.Callbacks.{SessionCallbacks, take_pending_da_queries}
use pterm.Callbacks.Csi.{
  title_or_empty, title_of, default_da_params, is_passthrough_sgr_subparams, restore_title,
  is_kitty_keyboard_protocol, save_title, count_da_query, title_operation,
  is_passthrough_private_mode, dispatch_csi, unhandled_csi, update_private_mode_state,
}
use pterm.Common.{
  pop_back-concat, [], ◌+◌, ◌∷◌, arith, Bytes, none, false, true, ◌≡◌, some, Option, ℕ, Bool,
}

-- If CSI 22 t has saved the title, then after any new title CSI 23 t brings back the saved title
-- and the title stack, and an empty title comes back as none.
pub restore-save :
    (lossy : Bytes → Bytes) (alternate : Bool) (title : Bytes) (callbacks saved : SessionCallbacks)
    → unhandled_csi alternate none none ((22 ∷ []) ∷ []) b't' callbacks ≡ some saved
    → unhandled_csi alternate none none ((23 ∷ []) ∷ []) b't' (set_window_title lossy title saved)
      ≡ some (record callbacks { window_title = title_of (title_or_empty callbacks.window_title) })
unfolding unhandled_csi dispatch_csi title_operation save_title restore_title set_window_title
    is_kitty_keyboard_protocol is_passthrough_private_mode is_passthrough_sgr_subparams
restore-save lossy alternate title callbacks saved h =
    let back =
      pop_back-concat callbacks.window_title_stack (title_or_empty callbacks.window_title) in
    ground (arith, back)

-- A sequence that changes focus tracking or synchronised output is never one that is passed
-- through.
pub private_mode-not_passed :
    (i1 i2 : Option ℕ) (params : Params) (c : ℕ) (callbacks : SessionCallbacks)
    → (update_private_mode_state params c callbacks).1 ≡ true
    → is_passthrough_private_mode i1 i2 params c ≡ false
unfolding update_private_mode_state is_passthrough_private_mode
private_mode-not_passed i1 i2 params c callbacks h = ground arith

abbrev pub counts : Option SessionCallbacks → Option (ℕ × ℕ)
counts none = none
counts (some callbacks) = some (take_pending_da_queries callbacks).0

-- With default parameters, CSI c counts one primary and CSI > c one secondary device query, and
-- taking the counts returns them.
pub take_pending_da_queries-unhandled_csi :
    (alternate : Bool) (params : Params) (callbacks : SessionCallbacks)
    → default_da_params params ≡ true
    → (counts (unhandled_csi alternate none none params b'c' callbacks)
        ≡ some (callbacks.pending_da1_queries + 1, callbacks.pending_da2_queries))
      × (counts (unhandled_csi alternate (some b'>') none params b'c' callbacks)
          ≡ some (callbacks.pending_da1_queries, callbacks.pending_da2_queries + 1))
unfolding take_pending_da_queries unhandled_csi dispatch_csi count_da_query
    is_kitty_keyboard_protocol is_passthrough_private_mode is_passthrough_sgr_subparams
take_pending_da_queries-unhandled_csi alternate params callbacks h = (ground arith, ground arith)
