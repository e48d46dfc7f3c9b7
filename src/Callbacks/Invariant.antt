-- ===== src/Callbacks/Invariant.antt =====
-- Every handler of `vt100::Callbacks` returns, and keeps the callbacks valid.
use pterm.Callbacks.Osc.{
  update_hyperlink_state, unhandled_escape, unhandled_osc, set_window_title, copy_to_clipboard,
}
use pterm.Callbacks.Format.{format_unhandled_osc, format_unhandled_csi}
use pterm.Common.{
  List, ◌+◌, ℕ, Bool, true, false, [], ◌∷◌, Option, none, some, ◌≡◌, refl, arith, Bytes,
}
use pterm.Kitty.{first_param, Params}
use pterm.Kitty.Stack.{IsBounded, update-IsBounded}
use pterm.Callbacks.{SessionCallbacks, initial, push_passthrough_sequence}
use pterm.Callbacks.Queue.{total, Fits, push_passthrough_sequence-IsLongestFit}
use pterm.Callbacks.Csi.{
  u8_of, dispatch_csi, unhandled_csi, count_da_query, update_private_mode_state,
  update_kitty_keyboard_state, save_title, restore_title, title_operation,
}

-- The queue's count is its size, the queue is within its limits, and so are both keyboard stacks.
pub record IsValid (callbacks : SessionCallbacks) : Type 0 where
  pub counted : callbacks.passthrough_bytes ≡ total callbacks.passthrough_sequences
  pub fits : Fits callbacks.passthrough_sequences
  pub main : IsBounded callbacks.kitty_keyboard_states.main
  pub alternate : IsBounded callbacks.kitty_keyboard_states.alternate

pub initial-IsValid : IsValid initial
initial-IsValid = omega arith

-- A run that does not panic, and ends in a valid state.
unfoldable pub Succeeds : Option SessionCallbacks → Type 0
Succeeds result = (callbacks : SessionCallbacks) × (result ≡ some callbacks) × IsValid callbacks

pub Succeeds-some : {callbacks : SessionCallbacks} → IsValid callbacks → Succeeds (some callbacks)
unfolding Succeeds
Succeeds-some {callbacks} v = (callbacks, refl, v)

push-Succeeds :
    (seq : Bytes) {callbacks : SessionCallbacks}
    → IsValid callbacks
    → Succeeds (push_passthrough_sequence seq callbacks)
push-Succeeds [] v = unfold push_passthrough_sequence in Succeeds-some v
push-Succeeds (b ∷ bs) {callbacks} v =
    let (kept, e, l) =
      push_passthrough_sequence-IsLongestFit (b ∷ bs) callbacks (λ h. cc) v.counted in
    unfold Succeeds in
    (
      record callbacks { passthrough_sequences = kept; passthrough_bytes = total kept },
      e,
      record { counted = refl; fits = l.fits; main = v.main; alternate = v.alternate },
    )

update_private_mode_state-IsValid :
    (params : Params) (c : ℕ) (callbacks : SessionCallbacks)
    → IsValid callbacks
    → IsValid (update_private_mode_state params c callbacks).0
unfolding update_private_mode_state
update_private_mode_state-IsValid params c callbacks v = ground arith

update_kitty_keyboard_state-IsValid :
    (alternate : Bool) (i1 : Option ℕ) (params : Params) (callbacks : SessionCallbacks)
    → IsValid callbacks
    → IsValid (update_kitty_keyboard_state alternate i1 params callbacks).0
unfolding update_kitty_keyboard_state
update_kitty_keyboard_state-IsValid true i1 params callbacks v = record {
  counted = v.counted;
  fits = v.fits;
  main = v.main;
  alternate = update-IsBounded i1 params callbacks.kitty_keyboard_states.alternate v.alternate;
}
update_kitty_keyboard_state-IsValid false i1 params callbacks v = record {
  counted = v.counted;
  fits = v.fits;
  main = update-IsBounded i1 params callbacks.kitty_keyboard_states.main v.main;
  alternate = v.alternate;
}

restore_title-IsValid :
    (callbacks : SessionCallbacks) → IsValid callbacks → IsValid (restore_title callbacks)
unfolding restore_title
restore_title-IsValid callbacks v = ground arith

-- A change of the other fields.
Succeeds-other :
    (callbacks callbacks' : SessionCallbacks)
    → IsValid callbacks
    → callbacks'.passthrough_bytes ≡ callbacks.passthrough_bytes
    → callbacks'.passthrough_sequences ≡ callbacks.passthrough_sequences
    → callbacks'.kitty_keyboard_states ≡ callbacks.kitty_keyboard_states
    → Succeeds (some callbacks')
Succeeds-other callbacks callbacks' v b q k = Succeeds-some (ground arith)

title_operation-Succeeds :
    (op : Option ℕ) (seq : Bytes) (callbacks : SessionCallbacks)
    → IsValid callbacks
    → Succeeds (title_operation op seq callbacks)
unfolding title_operation
title_operation-Succeeds none seq callbacks v = push-Succeeds seq v
title_operation-Succeeds (some op) seq callbacks v = ground (
  arith,
  push-Succeeds seq v,
  Succeeds-some (restore_title-IsValid callbacks v),
  Succeeds-other callbacks (save_title callbacks) v (unfold save_title in refl)
      (unfold save_title in refl) (unfold save_title in refl),
)

count_da_query-Succeeds :
    (i1 : Option ℕ) (seq : Bytes) (callbacks : SessionCallbacks)
    → IsValid callbacks
    → Succeeds (count_da_query i1 seq callbacks)
unfolding count_da_query
count_da_query-Succeeds none seq callbacks v = Succeeds-other callbacks _ v refl refl refl
count_da_query-Succeeds (some i1) seq callbacks v =
    let counted = record callbacks { pending_da2_queries = callbacks.pending_da2_queries + 1 } in
    ground (arith, push-Succeeds seq v, Succeeds-other callbacks counted v refl refl refl)

dispatch_csi-Succeeds :
    (alternate : Bool) (i1 i2 : Option ℕ) (params : Params) (c : ℕ) (callbacks : SessionCallbacks)
    → IsValid callbacks
    → Succeeds (dispatch_csi alternate i1 i2 params c callbacks)
unfolding dispatch_csi
dispatch_csi-Succeeds alternate i1 i2 params c callbacks v =
    let seq = format_unhandled_csi i1 i2 params c in
    let keyboard = update_kitty_keyboard_state-IsValid alternate i1 params callbacks v in
    ground (
      arith,
      Succeeds-some keyboard,
      push-Succeeds seq keyboard,
      push-Succeeds seq v,
      title_operation-Succeeds (first_param params) seq callbacks v,
      Succeeds-some v,
      count_da_query-Succeeds i1 seq callbacks v,
    )

pub unhandled_csi-Succeeds :
    (alternate : Bool) (i1 i2 : Option ℕ) (params : Params) (c : ℕ) (callbacks : SessionCallbacks)
    → IsValid callbacks
    → Succeeds (unhandled_csi alternate i1 i2 params c callbacks)
unfolding unhandled_csi
unhandled_csi-Succeeds alternate i1 i2 params c callbacks v =
    let mode = update_private_mode_state-IsValid params c callbacks v in
    let shape = record callbacks { cursor_shape = u8_of (first_param params) } in
    ground (
      arith,
      Succeeds-other callbacks shape v refl refl refl,
      push-Succeeds (format_unhandled_csi i1 i2 params c) mode,
      Succeeds-some mode,
      dispatch_csi-Succeeds alternate i1 i2 params c callbacks v,
    )

-- From valid callbacks no CSI sequence makes the handler panic, and the callbacks stay valid: the
-- byte count of the queue is true, the queue within its limits, the keyboard stacks within their
-- depth.
pub unhandled_csi-IsValid :
    (alternate : Bool) (i1 i2 : Option ℕ) (params : Params) (c : ℕ) (callbacks : SessionCallbacks)
    → IsValid callbacks
    → (callbacks' : SessionCallbacks) × (unhandled_csi alternate i1 i2 params c callbacks
        ≡ some callbacks')
      × IsValid callbacks'
unfolding Succeeds
unhandled_csi-IsValid alternate i1 i2 params c callbacks v =
    unhandled_csi-Succeeds alternate i1 i2 params c callbacks v

pub unhandled_escape-Succeeds :
    (i1 i2 : Option ℕ) (b : ℕ) (callbacks : SessionCallbacks)
    → IsValid callbacks
    → Succeeds (unhandled_escape i1 i2 b callbacks)
unfolding unhandled_escape
unhandled_escape-Succeeds i1 i2 b callbacks v = push-Succeeds _ v

pub copy_to_clipboard-Succeeds :
    (ty text : Bytes) (callbacks : SessionCallbacks)
    → IsValid callbacks
    → Succeeds (copy_to_clipboard ty text callbacks)
unfolding copy_to_clipboard
copy_to_clipboard-Succeeds ty text callbacks v = push-Succeeds _ v

module _ (lossy : Bytes → Bytes) where
  pub set_window_title-IsValid :
      (title : Bytes) (callbacks : SessionCallbacks)
      → IsValid callbacks
      → IsValid (set_window_title lossy title callbacks)
  unfolding set_window_title
  set_window_title-IsValid title callbacks v = ground arith

  update_hyperlink_state-IsValid :
      (params : List Bytes) (callbacks : SessionCallbacks)
      → IsValid callbacks
      → IsValid (update_hyperlink_state lossy params callbacks).0
  unfolding update_hyperlink_state
  update_hyperlink_state-IsValid (kind ∷ options ∷ [] ∷ rest) callbacks v = ground arith
  update_hyperlink_state-IsValid (kind ∷ options ∷ (b ∷ bs) ∷ rest) callbacks v = ground arith
  update_hyperlink_state-IsValid _ callbacks v = v

  pub unhandled_osc-Succeeds :
      (params : List Bytes) (callbacks : SessionCallbacks)
      → IsValid callbacks
      → Succeeds (unhandled_osc lossy params callbacks)
  unfolding unhandled_osc
  unhandled_osc-Succeeds params callbacks v =
      let link = update_hyperlink_state-IsValid params callbacks v in
      ground (arith, Succeeds-some link, push-Succeeds (format_unhandled_osc params) link)
