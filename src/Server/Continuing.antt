-- ===== src/Server/Continuing.antt =====
-- src/server.rs: the handlers of the PTY leave the exit code of the session alone, for which only the end of
-- a round looks, and keep it valid.
use pterm.Common.{
  ◌∙◌, ltb, Bool-cases, Option-cases, length, ℕ, zero, suc, ◌≡◌, refl, subst, inl, inr, true, false,
  none, some, List, [], ◌∷◌, ◌++◌, Bytes,
}
use pterm.Pty
use pterm.Callbacks.{SessionCallbacks, take_pending_da_queries}
use pterm.Callbacks.Invariant
use pterm.Io.{Read, got, Io-cases, Io, ok, err, panic, waiting}
use pterm.Vt.{handle_events, Vt100}
use pterm.Filter
use pterm.Filter.Stream.{filter-IsWellFormed}
use pterm.Session.Reading.{IsValid, handle_events-Succeeds}
use pterm.Callbacks.Invariant.{Succeeds}
use pterm.Session.{Session, read_pty, write_pty, resize, take_queries}
use pterm.Server.Handlers.{
  drain_pty, respond, respond_all, answer_queries, pty_buf_len, da1_response, da2_response,
}

module _ (vt : Vt100) where
  -- A step that leaves the exit code, and keeps a valid session valid.
  pub record Continues (s s' : Session vt) : Type 0 where
    pub exited : s'.exited ≡ s.exited
    pub valid : IsValid vt s → IsValid vt s'

  Continues-refl : {s : Session vt} → Continues s s
  Continues-refl = record { exited = refl; valid = λ v. v }

  pub Continues-trans :
      {s s' s'' : Session vt} → Continues s s' → Continues s' s'' → Continues s s''
  Continues-trans k l = record { exited = l.exited ∙ k.exited; valid = λ v. l.valid (k.valid v) }

  -- What holds of the session of a result, where it has one.
  abbrev pub OkContinues : {A : Type 0} → (A → Session vt) → Session vt → Io A → Type 0
  OkContinues session s (ok a) = Continues s (session a)
  OkContinues session s _ = Unit

  OkContinues-trans :
      {A : Type 0} (session : A → Session vt) {s s' : Session vt} (r : Io A)
      → Continues s s'
      → OkContinues session s' r
      → OkContinues session s r
  OkContinues-trans session (ok a) k l = Continues-trans k l
  OkContinues-trans session (err e) k l = tt
  OkContinues-trans session panic k l = tt
  OkContinues-trans session waiting k l = tt

  pub resize-Continues :
      (cols rows : ℕ) (s : Session vt) → OkContinues (λ s. s) s (resize vt cols rows s)
  unfolding resize Pty.resize Pty.set_winsize
  resize-Continues cols rows s = elim (Bool-cases s.pty.resizable) [
    | inl e ↦
        rw (e, OkContinues, resize, Pty.resize, Pty.set_winsize)
          (record {
            exited = refl;
            valid = λ v. record { callbacks = v.callbacks; output_filter = v.output_filter };
          })
    | inr e ↦ rw (e, OkContinues, resize, Pty.resize, Pty.set_winsize) tt
  ]

  pub write_pty-Continues : (bytes : Bytes) (s : Session vt) → Continues s (write_pty vt bytes s).1
  unfolding write_pty
  write_pty-Continues bytes s = record {
    exited = refl;
    valid = λ v. record { callbacks = v.callbacks; output_filter = v.output_filter };
  }

  read_pty-valid :
      (b : ℕ) (bs : Bytes) (s : Session vt) (callbacks : SessionCallbacks)
      → let (screen, events) = vt.process s.screen (b ∷ bs) in
        handle_events vt.lossy events s.callbacks ≡ some callbacks
        → IsValid vt s
        → IsValid vt (record s {
          screen = screen;
          callbacks = callbacks;
          output_filter = (Filter.filter s.output_filter (b ∷ bs) []).0;
        })
  unfolding Succeeds
  read_pty-valid b bs s callbacks e v =
      let events = (vt.process s.screen (b ∷ bs)).1 in
      let (callbacks', e', v') = handle_events-Succeeds vt.lossy events s.callbacks v.callbacks in
      let same : callbacks' ≡ callbacks = cc (e, e') in
      record {
        callbacks = subst Invariant.IsValid same v';
        output_filter = filter-IsWellFormed (b ∷ bs) [] v.output_filter;
      }

  read_pty-Continues :
      (buf_len : ℕ) (answer : Read) (s : Session vt)
      → OkContinues (λ r. r.0) s (read_pty vt buf_len answer s)
  unfolding read_pty
  read_pty-Continues buf_len (got []) s = Continues-refl
  read_pty-Continues buf_len (got (b ∷ bs)) s =
      let (screen, events) = vt.process s.screen (b ∷ bs) in
      let filtered = (Filter.filter s.output_filter (b ∷ bs) []).1 in
      elim (Option-cases (handle_events vt.lossy events s.callbacks)) [
        | inl e ↦ rw (e, OkContinues, read_pty) tt
        | inr (callbacks, e) ↦ elim (Bool-cases (ltb buf_len (length filtered))) [
          | inl long ↦ rw (e, long, OkContinues, read_pty) tt
          | inr fits ↦
              rw (e, fits, OkContinues, read_pty)
                (record { exited = refl; valid = read_pty-valid b bs s callbacks e })
        ]
      ]
  read_pty-Continues buf_len Read.would_block s = Continues-refl
  read_pty-Continues buf_len Read.failed s = tt

  pub drain_pty-Continues :
      (answers : List Read) (s : Session vt) (pending : Bytes)
      → OkContinues (λ r. r.session) s (drain_pty vt answers s pending)
  unfolding drain_pty
  drain_pty-Continues [] s pending = Continues-refl
  drain_pty-Continues (answer ∷ answers) s pending =
      let k = read_pty-Continues pty_buf_len answer s in
      elim (Io-cases (read_pty vt pty_buf_len answer s)) [
        | inl ((s', none), e) ↦ rw (e, OkContinues, drain_pty) (rw (e, OkContinues) at k)
        | inl ((s', some []), e) ↦ rw (e, OkContinues, drain_pty) (rw (e, OkContinues) at k)
        | inl ((s', some (b ∷ bs)), e) ↦
            rw (e, drain_pty)
              (OkContinues-trans (λ r. r.session) (drain_pty vt answers s' (pending ++ b ∷ bs))
                (rw (e, OkContinues) at k) (drain_pty-Continues answers s' (pending ++ b ∷ bs)))
        | inr (inl (error, e)) ↦ rw (e, OkContinues, drain_pty) Continues-refl
        | inr (inr (inl e)) ↦ rw (e, OkContinues, drain_pty) tt
        | inr (inr (inr e)) ↦ rw (e, OkContinues, drain_pty) tt
      ]

  respond-Continues :
      (count : ℕ) (response : Bytes) (s : Session vt)
      → OkContinues (λ s. s) s (respond vt count response s)
  unfolding respond
  respond-Continues zero response s = Continues-refl
  respond-Continues (suc count) response s =
      let s' = (write_pty vt response s).1 in
      let k = write_pty-Continues response s in
      elim (Io-cases (write_pty vt response s).0) [
        | inl (u, e) ↦
            rw (e, respond)
              (OkContinues-trans (λ s. s) (respond vt count response s') k
                (respond-Continues count response s'))
        | inr (inl (error, e)) ↦ rw (e, OkContinues, respond) k
        | inr (inr (inl e)) ↦ rw (e, OkContinues, respond) tt
        | inr (inr (inr e)) ↦ rw (e, OkContinues, respond) tt
      ]

  respond_all-Continues :
      (da1 da2 : ℕ) (s : Session vt) → OkContinues (λ s. s) s (respond_all vt da1 da2 s)
  unfolding respond_all
  respond_all-Continues da1 da2 s =
      let k = respond-Continues da1 da1_response s in
      elim (Io-cases (respond vt da1 da1_response s)) [
        | inl (s', e) ↦
            rw (e, respond_all)
              (OkContinues-trans (λ s. s) (respond vt da2 da2_response s')
                (rw (e, OkContinues) at k) (respond-Continues da2 da2_response s'))
        | inr (inl (error, e)) ↦ rw (e, OkContinues, respond_all) tt
        | inr (inr (inl e)) ↦ rw (e, OkContinues, respond_all) tt
        | inr (inr (inr e)) ↦ rw (e, OkContinues, respond_all) tt
      ]

  take_queries-Continues : (s : Session vt) → Continues s (take_queries vt s).1
  unfolding take_queries take_pending_da_queries
  take_queries-Continues s = record {
    exited = refl;
    valid = λ v. record {
      callbacks = record {
        counted = v.callbacks.counted;
        fits = v.callbacks.fits;
        main = v.callbacks.main;
        alternate = v.callbacks.alternate;
      };
      output_filter = v.output_filter;
    };
  }

  pub answer_queries-Continues : (s : Session vt) → OkContinues (λ s. s) s (answer_queries vt s)
  unfolding answer_queries take_queries
  answer_queries-Continues s =
      let k = take_queries-Continues s in
      elim (Option-cases s.pty.echo) [
        | inl e ↦ simp e k
        | inr (true, e) ↦ simp e k
        | inr (false, e) ↦ simp e (OkContinues-trans (λ s. s) _ k (respond_all-Continues _ _ _))
      ]
