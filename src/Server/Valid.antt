-- ===== src/Server/Valid.antt =====
-- src/server.rs, `run`: the session over the event loop.
use pterm.Server.Broadcast.{flush_pty_output, send_snapshot_to_all_clients, redraw}
use pterm.Session.{Session, WaitStatus, check_exit}
use pterm.Session.Reading
use pterm.Io.{ok}
use pterm.Vt.{Vt100}
use pterm.Server.{Server, is_empty}
use pterm.Server.Handlers.{Accept, connected, no_more, broken, accept_client}
use pterm.Server.Stable.{Stable}
use pterm.Server.Held.{Held, run-holds, on_events-holds}
use pterm.Server.Run.{Event, on_events, Round, reap, run, exit_clients, end_of_round}
use pterm.Common.{
  Bool-cases, Option-cases, ℤ, ◌≡◌, refl, sym, subst, inl, inr, Bool, true, false, none, List, [],
  ◌∷◌,
}

module _ (vt : Vt100) where
  -- The session's callbacks are valid and its filter is well formed.
  abbrev pub HasValidSession : Server vt → Type 0
  HasValidSession s = Reading.IsValid vt s.session

  flush_pty_output-session : (s : Server vt) → (flush_pty_output vt s).session ≡ s.session
  unfolding flush_pty_output
  flush_pty_output-session s = elim (Bool-cases (is_empty s.pending_pty_output)) [
    | inl e ↦ rw e refl
    | inr e ↦ rw e refl
  ]

  flush_pty_output-valid :
      (s : Server vt) → HasValidSession s → HasValidSession (flush_pty_output vt s)
  flush_pty_output-valid s v = subst (Reading.IsValid vt) (sym (flush_pty_output-session s)) v

  sends_snapshots-valid :
      (s : Server vt) → HasValidSession s → HasValidSession (send_snapshot_to_all_clients vt true s)
  unfolding send_snapshot_to_all_clients
  sends_snapshots-valid s v = v

  redraw-valid : (s : Server vt) → HasValidSession s → HasValidSession (redraw vt s)
  unfolding redraw
  redraw-valid s v = v

  abbrev stays_valid : Stable vt
  stays_valid = record {
    relates = λ s s'. HasValidSession s → HasValidSession s';
    stays = λ s v. v;
    follows = λ k l v. l (k v);
    modifies = λ id change s v. v;
    removes = λ id s v. v;
    flushes = λ s v. v;
    flushes_one = λ id s v. v;
    sends_output = flush_pty_output-valid;
    sends_snapshots = sends_snapshots-valid;
    redraws = redraw-valid;
    uses_session = λ s session k v. k.valid v;
    reads_output = λ s session pending k v. flush_pty_output-valid _ (k.valid v);
  }

  accept_client-session :
      (answers : List Accept) (s : Server vt) → (accept_client vt answers s).1.session ≡ s.session
  unfolding accept_client
  accept_client-session [] s = refl
  accept_client-session (no_more ∷ answers) s = refl
  accept_client-session (broken ∷ answers) s = refl
  accept_client-session (connected stream false ∷ answers) s = refl
  accept_client-session (connected stream true ∷ answers) s = accept_client-session answers _

  check_exit-unknown_valid :
      (status : WaitStatus) (s : Session vt)
      → s.exited ≡ none
      → Reading.IsValid vt s
      → Reading.IsValid vt (check_exit vt status s).1
  unfolding check_exit
  check_exit-unknown_valid (WaitStatus.exited code) s e v =
      rw (e, check_exit) (record { callbacks = v.callbacks; output_filter = v.output_filter })
  check_exit-unknown_valid (WaitStatus.signaled sig) s e v =
      rw (e, check_exit) (record { callbacks = v.callbacks; output_filter = v.output_filter })
  check_exit-unknown_valid WaitStatus.still_alive s e v = rw (e, check_exit) v

  check_exit-valid :
      (status : WaitStatus) (s : Session vt)
      → Reading.IsValid vt s
      → Reading.IsValid vt (check_exit vt status s).1
  unfolding check_exit
  check_exit-valid status s v = elim (Option-cases s.exited) [
    | inr (code, e) ↦ rw (e, check_exit) v
    | inl e ↦ check_exit-unknown_valid status s e v
  ]

  exit_clients-valid :
      (code : ℤ) (s : Server vt) → HasValidSession s → HasValidSession (exit_clients vt code s)
  unfolding exit_clients
  exit_clients-valid code s v = flush_pty_output-valid s v

  reap-valid :
      (status : WaitStatus) (s : Server vt) → HasValidSession s → HasValidSession (reap vt status s)
  unfolding reap
  reap-valid status s v =
      let v' = check_exit-valid status s.session v in
      elim (Option-cases (check_exit vt status s.session).0) [
        | inl e ↦ rw (e, reap) v'
        | inr (code, e) ↦ rw (e, reap) (exit_clients-valid code _ v')
      ]

  end_of_round-valid :
      (status : WaitStatus) (s : Server vt)
      → HasValidSession s
      → HasValidSession (end_of_round vt status s).0
  unfolding end_of_round
  end_of_round-valid status s v = elim (Bool-cases s.exit_sent) [
    | inl sent ↦ simp sent v
    | inr unsent ↦ simp unsent (reap-valid status s v)
  ]

  abbrev valid : Held vt stays_valid
  valid = record {
    holds = HasValidSession;
    holds_on = λ k v. k v;
    accepts = λ answers s v. subst (Reading.IsValid vt) (sym (accept_client-session answers s)) v;
    ends = end_of_round-valid;
  }

  pub run-HasValidSession :
      (rounds : List Round) (s s' : Server vt) (ended : Bool)
      → HasValidSession s
      → run vt rounds s ≡ ok (s', ended)
      → HasValidSession s'
  run-HasValidSession rounds s s' ended = run-holds vt stays_valid valid rounds

  pub on_events-HasValidSession :
      (events : List Event) (s s' : Server vt)
      → HasValidSession s
      → on_events vt events s ≡ ok s'
      → HasValidSession s'
  on_events-HasValidSession events s s' = on_events-holds vt stays_valid valid events
