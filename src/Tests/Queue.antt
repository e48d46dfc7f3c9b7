-- ===== src/Tests/Queue.antt =====
-- src/session.rs, the callbacks on concrete inputs.
use pterm.Common.{codes, ◌≡◌, refl, true, false, none, some, List, [], ◌∷◌, ◌++◌, Bytes}
use pterm.Callbacks.{SessionCallbacks, push_passthrough_sequence, take_pending_da_queries}
use pterm.Callbacks
use pterm.Callbacks.Queue.{IsLongestFit, total, push_passthrough_sequence-IsLongestFit}
use pterm.Callbacks.Csi.{
  is_kitty_keyboard_protocol, is_passthrough_sgr_subparams, unhandled_csi,
  is_passthrough_private_mode, dispatch_csi, title_operation, save_title,
}
use pterm.Callbacks.Invariant.{IsValid, initial-IsValid, unhandled_csi-IsValid}

abbrev queued : SessionCallbacks
queued = record Callbacks.initial {
  passthrough_sequences = (27 ∷ codes "[5i") ∷ [];
  passthrough_bytes = 4;
}

push_passthrough_sequence-IsLongestFit_example :
    (kept : List Bytes) × (push_passthrough_sequence (27 ∷ codes "[4i") queued
      ≡ some (record queued { passthrough_sequences = kept; passthrough_bytes = total kept }))
    × IsLongestFit (queued.passthrough_sequences ++ (27 ∷ codes "[4i") ∷ []) kept
push_passthrough_sequence-IsLongestFit_example =
    push_passthrough_sequence-IsLongestFit (27 ∷ codes "[4i") queued (λ e. cc) refl

unhandled_csi-IsValid_example :
    (callbacks' : SessionCallbacks) × (unhandled_csi true none none
        ((5 ∷ []) ∷ [])
        b'i'
        Callbacks.initial
      ≡ some callbacks')
    × IsValid callbacks'
unhandled_csi-IsValid_example =
    unhandled_csi-IsValid true none none ((5 ∷ []) ∷ []) b'i' Callbacks.initial initial-IsValid

abbrev titled : SessionCallbacks
titled = record Callbacks.initial { window_title = some (codes "vim") }

abbrev saved : SessionCallbacks
saved = record titled { window_title_stack = codes "vim" ∷ [] }

save_title-titled : unhandled_csi false none none ((22 ∷ []) ∷ []) b't' titled ≡ some saved
unfolding unhandled_csi dispatch_csi title_operation save_title is_kitty_keyboard_protocol
    is_passthrough_private_mode is_passthrough_sgr_subparams
save_title-titled = refl
