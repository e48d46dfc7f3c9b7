-- ===== src/Session/Reading.antt =====
-- src/session.rs, `read_pty`: the filtered bytes and the buffer.
use pterm.Common.{
  ◌∙◌, ap, All, ltb, lt→ltb, Option-cases, length, ℕ, ◌+◌, ◌≤◌, ◌<◌, ◌≡◌, refl, ◌≢◌, inl, inr,
  false, some, List, [], ◌∷◌, arith, Bytes,
}
use pterm.Vt.{Vt100, Event, handle_event, handle_events}
use native.Mathlib.Nat.{le_trans}
use pterm.Io.{ok, panic, got}
use pterm.Filter
use pterm.Filter.Stream.{filter-split_escape, length-filter, filter-IsWellFormed}
use pterm.Filter.Account.{IsWellFormed}
use pterm.Callbacks.{SessionCallbacks}
use pterm.Callbacks.Invariant.{
  Succeeds, Succeeds-some, unhandled_csi-Succeeds, unhandled_escape-Succeeds,
  unhandled_osc-Succeeds, copy_to_clipboard-Succeeds, set_window_title-IsValid,
}
use pterm.Callbacks.Invariant
use pterm.Session.{Session, read_pty}

le→ltb : (a b : ℕ) → b ≤ a → ltb a b ≡ false
le→ltb a b h = ground arith

handle_event-Succeeds :
    (lossy : Bytes → Bytes) (event : Event) (callbacks : SessionCallbacks)
    → Invariant.IsValid callbacks
    → Succeeds (handle_event lossy event callbacks)
unfolding handle_event
handle_event-Succeeds lossy (Event.title bytes) callbacks v =
    Succeeds-some (set_window_title-IsValid lossy bytes callbacks v)
handle_event-Succeeds lossy (Event.csi alternate i1 i2 params c) callbacks v =
    unhandled_csi-Succeeds alternate i1 i2 params c callbacks v
handle_event-Succeeds lossy (Event.escape i1 i2 b) callbacks v =
    unhandled_escape-Succeeds i1 i2 b callbacks v
handle_event-Succeeds lossy (Event.osc params) callbacks v =
    unhandled_osc-Succeeds lossy params callbacks v
handle_event-Succeeds lossy (Event.clipboard ty text) callbacks v =
    copy_to_clipboard-Succeeds ty text callbacks v

-- Any sequence of callbacks returns, and keeps the callbacks valid.
pub handle_events-Succeeds :
    (lossy : Bytes → Bytes) (events : List Event) (callbacks : SessionCallbacks)
    → Invariant.IsValid callbacks
    → Succeeds (handle_events lossy events callbacks)
unfolding handle_events Succeeds
handle_events-Succeeds lossy [] callbacks v = Succeeds-some v
handle_events-Succeeds lossy (event ∷ events) callbacks v =
    let (callbacks', e, v') = handle_event-Succeeds lossy event callbacks v in
    rw (e, handle_events) (handle_events-Succeeds lossy events callbacks' v')

module _ (vt : Vt100) where
  pub record IsValid (s : Session vt) : Type 0 where
    pub callbacks : Invariant.IsValid s.callbacks
    pub output_filter : IsWellFormed s.output_filter

  pub read_pty-filter :
      (buf_len : ℕ) (bytes : Bytes) (s : Session vt)
      → IsValid s
      → length s.output_filter.pending + length bytes ≤ buf_len
      → (s' : Session vt) × (read_pty vt buf_len (got bytes) s
          ≡ ok (s', some (Filter.filter s.output_filter bytes []).1))
        × IsValid s'
        × (s'.output_filter ≡ (Filter.filter s.output_filter bytes []).0)
  unfolding read_pty Succeeds
  read_pty-filter buf_len [] s v h = unfold Filter.filter in (s, refl, v, refl)
  read_pty-filter buf_len (b ∷ bs) s v h =
      let (screen, events) = vt.process s.screen (b ∷ bs) in
      let (callbacks, e, callbacks_valid) =
        handle_events-Succeeds vt.lossy events s.callbacks v.callbacks in
      let run = Filter.filter s.output_filter (b ∷ bs) [] in
      let room = le→ltb _ _ (le_trans (length-filter (b ∷ bs) s.output_filter v.output_filter) h) in
      (
        record s { screen = screen; callbacks = callbacks; output_filter = run.0 },
        rw (e, read_pty, room),
        record {
          callbacks = callbacks_valid;
          output_filter = filter-IsWellFormed (b ∷ bs) [] v.output_filter;
        },
        refl,
      )

  -- A read of a valid session whose held-back bytes and new bytes fit the buffer returns what the
  -- filter outputs, and the session stays valid, whatever callbacks vt100 makes.
  pub read_pty-IsValid :
      (buf_len : ℕ) (bytes : Bytes) (s : Session vt)
      → IsValid s
      → length s.output_filter.pending + length bytes ≤ buf_len
      → (s' : Session vt) × (read_pty vt buf_len (got bytes) s
          ≡ ok (s', some (Filter.filter s.output_filter bytes []).1))
        × IsValid s'
  read_pty-IsValid buf_len bytes s v h =
      let (s', e, v', _) = read_pty-filter buf_len bytes s v h in (s', e, v')

  read_pty-overflows :
      (buf_len b : ℕ) (bs : Bytes) (s : Session vt)
      → buf_len < length (Filter.filter s.output_filter (b ∷ bs) []).1
      → read_pty vt buf_len (got (b ∷ bs)) s ≡ panic
  unfolding read_pty
  read_pty-overflows buf_len b bs s h =
      let (screen, events) = vt.process s.screen (b ∷ bs) in
      elim (Option-cases (handle_events vt.lossy events s.callbacks)) [
        | inl e ↦ rw (e, read_pty)
        | inr (callbacks, e) ↦ rw (e, read_pty, lt→ltb _ _ h)
      ]

  -- From a valid session whose filter is the initial one: a read of a lone ESC returns no output
  -- and leaves a valid session; a next read that fills the buffer, of a byte that is neither [ nor
  -- ] and then bytes other than ESC, panics.
  pub read_pty-split_escape :
      (buf_len b : ℕ) (bs : Bytes) (s : Session vt)
      → IsValid s
      → s.output_filter ≡ Filter.initial
      → b ≢ b'['
      → b ≢ b']'
      → All (λ b. b ≢ Filter.escape) bs
      → length (b ∷ bs) ≡ buf_len
      → (s' : Session vt) × (read_pty vt buf_len (got (Filter.escape ∷ [])) s ≡ ok (s', some []))
        × IsValid s'
        × (read_pty vt buf_len (got (b ∷ bs)) s' ≡ panic)
  unfolding Filter.filter Filter.filter_byte
  read_pty-split_escape buf_len b bs s v e n m h full =
      let room : length s.output_filter.pending + 1 ≤ buf_len =
        omega (arith, ap (λ f. length f.pending) e) in
      let (s', read, v', held) = read_pty-filter buf_len (Filter.escape ∷ []) s v room in
      let first : Filter.filter s.output_filter (Filter.escape ∷ []) []
          ≡ Filter.filter Filter.initial (Filter.escape ∷ []) [] =
        ap (λ f. Filter.filter f (Filter.escape ∷ []) []) e in
      let out : Filter.filter s'.output_filter (b ∷ bs) []
          ≡ (Filter.initial, Filter.escape ∷ b ∷ bs) =
        ap (λ f. Filter.filter f (b ∷ bs) []) (held ∙ ap (λ run. run.0) first)
        ∙ filter-split_escape b bs n m h in
      (
        s',
        read ∙ ap (λ run. ok (s', some run.1)) first,
        v',
        read_pty-overflows buf_len b bs s' (omega (arith, full, ap (λ run. length run.1) out)),
      )
