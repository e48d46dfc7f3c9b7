-- ===== src/Server/Quiet.antt =====
-- src/server.rs, `run`: the output that is pending over the event loop.
use pterm.Server.Exit.{flush_pty_output-IsQuiet}
use pterm.Server.Broadcast.{send_snapshot_to_all_clients, redraw}
use pterm.Session.{WaitStatus, check_exit}
use pterm.Io.{ok}
use pterm.Vt.{Vt100}
use pterm.Server.{Server}
use pterm.Server.Handlers.{Accept, connected, no_more, broken, accept_client}
use pterm.Server.Stable.{Stable}
use pterm.Server.Held.{Held, run-holds, on_events-holds}
use pterm.Server.Run.{Event, on_events, Round, reap, run, exit_clients, end_of_round}
use pterm.Common.{Bool-cases, Option-cases, ℤ, ◌≡◌, inl, inr, Bool, true, false, List, [], ◌∷◌}

module _ (vt : Vt100) where
  -- No output waits to be sent.
  abbrev pub IsQuiet : Server vt → Type 0
  IsQuiet s = s.pending_pty_output ≡ []

  sends_snapshots-IsQuiet :
      (s : Server vt) → IsQuiet s → IsQuiet (send_snapshot_to_all_clients vt true s)
  unfolding send_snapshot_to_all_clients
  sends_snapshots-IsQuiet s q = q

  redraw-IsQuiet : (s : Server vt) → IsQuiet s → IsQuiet (redraw vt s)
  unfolding redraw
  redraw-IsQuiet s q = q

  abbrev stays_quiet : Stable vt
  stays_quiet = record {
    relates = λ s s'. IsQuiet s → IsQuiet s';
    stays = λ s q. q;
    follows = λ k l q. l (k q);
    modifies = λ id change s q. q;
    removes = λ id s q. q;
    flushes = λ s q. q;
    flushes_one = λ id s q. q;
    sends_output = λ s q. flush_pty_output-IsQuiet vt s;
    sends_snapshots = sends_snapshots-IsQuiet;
    redraws = redraw-IsQuiet;
    uses_session = λ s session same q. q;
    reads_output = λ s session pending same q. flush_pty_output-IsQuiet vt _;
  }

  accept_client-IsQuiet :
      (answers : List Accept) (s : Server vt) → IsQuiet s → IsQuiet (accept_client vt answers s).1
  unfolding accept_client
  accept_client-IsQuiet [] s q = q
  accept_client-IsQuiet (no_more ∷ answers) s q = q
  accept_client-IsQuiet (broken ∷ answers) s q = q
  accept_client-IsQuiet (connected stream false ∷ answers) s q = q
  accept_client-IsQuiet (connected stream true ∷ answers) s q = accept_client-IsQuiet answers _ q

  exit_clients-IsQuiet : (code : ℤ) (s : Server vt) → IsQuiet (exit_clients vt code s)
  unfolding exit_clients
  exit_clients-IsQuiet code s = flush_pty_output-IsQuiet vt s

  reap-IsQuiet : (status : WaitStatus) (s : Server vt) → IsQuiet s → IsQuiet (reap vt status s)
  unfolding reap
  reap-IsQuiet status s q = elim (Option-cases (check_exit vt status s.session).0) [
    | inl e ↦ rw (e, reap) q
    | inr (code, e) ↦ rw (e, reap) (exit_clients-IsQuiet code _)
  ]

  end_of_round-IsQuiet :
      (status : WaitStatus) (s : Server vt) → IsQuiet s → IsQuiet (end_of_round vt status s).0
  unfolding end_of_round
  end_of_round-IsQuiet status s q = elim (Bool-cases s.exit_sent) [
    | inl sent ↦ simp sent q
    | inr unsent ↦ simp unsent (reap-IsQuiet status s q)
  ]

  abbrev quiet : Held vt stays_quiet
  quiet = record {
    holds = IsQuiet;
    holds_on = λ k q. k q;
    accepts = accept_client-IsQuiet;
    ends = end_of_round-IsQuiet;
  }

  -- Between the rounds no output waits: each event that reads some also sends it.
  pub run-IsQuiet :
      (rounds : List Round) (s s' : Server vt) (ended : Bool)
      → IsQuiet s
      → run vt rounds s ≡ ok (s', ended)
      → IsQuiet s'
  run-IsQuiet rounds s s' ended = run-holds vt stays_quiet quiet rounds

  pub on_events-IsQuiet :
      (events : List Event) (s s' : Server vt)
      → IsQuiet s
      → on_events vt events s ≡ ok s'
      → IsQuiet s'
  on_events-IsQuiet events s s' = on_events-holds vt stays_quiet quiet events
