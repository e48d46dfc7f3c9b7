-- ===== src/Server/Reaped.antt =====
-- src/server.rs, `run`: the child's exit over the event loop.
use pterm.Common.{
  Bytes, Bool-cases, Option-cases, is_none, All, ℤ, ◌≡◌, refl, sym, ap, subst, ◌∙◌, ◌≢◌, ◌⊎◌, inl,
  inr, Bool, true, false, not, ◌&&◌, Option, none, some, List, [], ◌∷◌,
}
use pterm.Server.Broadcast.{flush_pty_output, send_snapshot_to_all_clients, redraw}
use pterm.Session.{Session, check_exit, WaitStatus}
use pterm.Io.{ok, Io-cases}
use pterm.Vt.{Vt100}
use pterm.Server.{Clients, Server, is_empty}
use pterm.Server.Handlers.{Accept, connected, no_more, broken, accept_client}
use pterm.Server.Stable.{Stable}
use pterm.Server.Held.{Held, run-holds, on_events-holds}
use pterm.Server.Run.{
  Event, Round, path_missing, poll_failed, polled, reap, run, exit_clients, end_of_round, on_events,
}

and_parts : (a b : Bool) → (a && b) ≡ true → (a ≡ true) × (b ≡ true)
and_parts true b h = (refl, h)
and_parts false b h = cc

is_empty-nil : (cs : Clients) → is_empty cs ≡ true → cs ≡ []
is_empty-nil [] h = refl
is_empty-nil (c ∷ cs) h = cc

is_none-not : (o : Option ℤ) → not (is_none o) ≡ true → o ≢ none
is_none-not none h e = cc
is_none-not (some code) h e = cc

module _ (vt : Vt100) where
  -- A step that neither looks for the child's exit nor tells of it.
  record KeepsExit (s s' : Server vt) : Type 0 where
    sent : s'.exit_sent ≡ s.exit_sent
    exited : s'.session.exited ≡ s.session.exited

  KeepsExit-refl : (s : Server vt) → KeepsExit s s
  KeepsExit-refl s = record { sent = refl; exited = refl }

  KeepsExit-trans : {s s' s'' : Server vt} → KeepsExit s s' → KeepsExit s' s'' → KeepsExit s s''
  KeepsExit-trans k l = record { sent = l.sent ∙ k.sent; exited = l.exited ∙ k.exited }

  flush_pty_output-KeepsExit : (s : Server vt) → KeepsExit s (flush_pty_output vt s)
  unfolding flush_pty_output
  flush_pty_output-KeepsExit s = elim (Bool-cases (is_empty s.pending_pty_output)) [
    | inl e ↦ rw e (KeepsExit-refl s)
    | inr e ↦ rw e (record { sent = refl; exited = refl })
  ]

  sends_snapshots-KeepsExit : (s : Server vt) → KeepsExit s (send_snapshot_to_all_clients vt true s)
  unfolding send_snapshot_to_all_clients
  sends_snapshots-KeepsExit s = record { sent = refl; exited = refl }

  redraw-KeepsExit : (s : Server vt) → KeepsExit s (redraw vt s)
  unfolding redraw
  redraw-KeepsExit s = record { sent = refl; exited = refl }

  reads_output-KeepsExit :
      (s : Server vt) (session : Session vt) (pending : Bytes)
      → session.exited ≡ s.session.exited
      → KeepsExit s
          (flush_pty_output vt (record s { session = session; pending_pty_output = pending }))
  reads_output-KeepsExit s session pending same =
      let k =
        flush_pty_output-KeepsExit (record s { session = session; pending_pty_output = pending }) in
      record { sent = k.sent; exited = k.exited ∙ same }

  abbrev keeps_exit : Stable vt
  keeps_exit = record {
    relates = KeepsExit;
    stays = KeepsExit-refl;
    follows = KeepsExit-trans;
    modifies = λ id change s. record { sent = refl; exited = refl };
    removes = λ id s. record { sent = refl; exited = refl };
    flushes = λ s. record { sent = refl; exited = refl };
    flushes_one = λ id s. record { sent = refl; exited = refl };
    sends_output = flush_pty_output-KeepsExit;
    sends_snapshots = sends_snapshots-KeepsExit;
    redraws = redraw-KeepsExit;
    uses_session = λ s session same. record { sent = refl; exited = same.exited };
    reads_output = λ s session pending same. reads_output-KeepsExit s session pending same.exited;
  }

  accept_client-KeepsExit :
      (answers : List Accept) (s : Server vt) → KeepsExit s (accept_client vt answers s).1
  unfolding accept_client
  accept_client-KeepsExit [] s = KeepsExit-refl s
  accept_client-KeepsExit (no_more ∷ answers) s = KeepsExit-refl s
  accept_client-KeepsExit (broken ∷ answers) s = KeepsExit-refl s
  accept_client-KeepsExit (connected stream false ∷ answers) s = record {
    sent = refl;
    exited = refl;
  }
  accept_client-KeepsExit (connected stream true ∷ answers) s =
      let k = accept_client-KeepsExit answers _ in record { sent = k.sent; exited = k.exited }

  -- The clients have been told of the exit just if it is known.
  abbrev pub IsReaped : Server vt → Type 0
  IsReaped s = s.exit_sent ≡ not (is_none s.session.exited)

  exit_clients-exited :
      (code : ℤ) (s : Server vt) → (exit_clients vt code s).session.exited ≡ s.session.exited
  unfolding exit_clients
  exit_clients-exited code s = (flush_pty_output-KeepsExit s).exited

  check_exit-unknown :
      (status : WaitStatus) (s : Session vt)
      → s.exited ≡ none
      → ((check_exit vt status s).1.exited ≡ (check_exit vt status s).0)
        × ((code : ℤ) → s.exited ≡ some code → (check_exit vt status s).0 ≡ some code)
  unfolding check_exit
  check_exit-unknown (WaitStatus.exited code) s e = rw (e, check_exit) (refl, λ code h. cc)
  check_exit-unknown (WaitStatus.signaled sig) s e = rw (e, check_exit) (refl, λ code h. cc)
  check_exit-unknown WaitStatus.still_alive s e = rw (e, check_exit) (e, λ code h. cc)

  check_exit-exited :
      (status : WaitStatus) (s : Session vt)
      → ((check_exit vt status s).1.exited ≡ (check_exit vt status s).0)
        × ((code : ℤ) → s.exited ≡ some code → (check_exit vt status s).0 ≡ some code)
  unfolding check_exit
  check_exit-exited status s = elim (Option-cases s.exited) [
    | inr (code, e) ↦ rw (e, check_exit) (e, λ code h. h)
    | inl e ↦ check_exit-unknown status s e
  ]

  reap-exited :
      (status : WaitStatus) (s : Server vt)
      → s.exit_sent ≡ false
      → ((reap vt status s).session.exited ≡ (check_exit vt status s.session).0)
        × ((reap vt status s).exit_sent ≡ not (is_none (check_exit vt status s.session).0))
  unfolding reap exit_clients
  reap-exited status s unsent =
      let (same, stays) = check_exit-exited status s.session in
      elim (Option-cases (check_exit vt status s.session).0) [
        | inl e ↦ rw (e, reap) (same ∙ e, unsent)
        | inr (code, e) ↦ rw (e, reap) (exit_clients-exited code _ ∙ same ∙ e, refl)
      ]

  end_of_round-sent :
      (status : WaitStatus) (s : Server vt) → s.exit_sent ≡ true → (end_of_round vt status s).0 ≡ s
  unfolding end_of_round
  end_of_round-sent status s sent = simp sent refl

  end_of_round-IsReaped :
      (status : WaitStatus) (s : Server vt) → IsReaped s → IsReaped (end_of_round vt status s).0
  unfolding end_of_round
  end_of_round-IsReaped status s r = elim (Bool-cases s.exit_sent) [
    | inl sent ↦ subst IsReaped (sym (end_of_round-sent status s sent)) r
    | inr unsent ↦
        let (exited, sent) = reap-exited status s unsent in
        simp unsent (sent ∙ ap (λ o. not (is_none o)) (sym exited))
  ]

  end_of_round-exited :
      (status : WaitStatus) (s : Server vt) (code : ℤ)
      → s.session.exited ≡ some code
      → (end_of_round vt status s).0.session.exited ≡ some code
  unfolding end_of_round
  end_of_round-exited status s code h = elim (Bool-cases s.exit_sent) [
    | inl sent ↦ simp sent h
    | inr unsent ↦
        simp unsent
          ((reap-exited status s unsent).0 ∙ (check_exit-exited status s.session).1 code h)
  ]

  abbrev reaped : Held vt keeps_exit
  reaped = record {
    holds = IsReaped;
    holds_on = λ k r. k.sent ∙ r ∙ ap (λ o. not (is_none o)) (sym k.exited);
    accepts = λ answers s r.
        let k = accept_client-KeepsExit answers s in
        k.sent ∙ r ∙ ap (λ o. not (is_none o)) (sym k.exited);
    ends = end_of_round-IsReaped;
  }

  -- A code that is known stays.
  abbrev known : ℤ → Held vt keeps_exit
  known code = record {
    holds = λ s. s.session.exited ≡ some code;
    holds_on = λ k h. k.exited ∙ h;
    accepts = λ answers s h. (accept_client-KeepsExit answers s).exited ∙ h;
    ends = λ status s h. end_of_round-exited status s code h;
  }

  -- What a loop that has ended leaves.
  abbrev IsOver : Server vt → Type 0
  IsOver s = (s.session.exited ≢ none) × (s.clients ≡ [])

  end_of_round-IsOver :
      (status : WaitStatus) (s : Server vt)
      → (end_of_round vt status s).1 ≡ true
      → IsOver (end_of_round vt status s).0
  unfolding end_of_round
  end_of_round-IsOver status s h =
      let last = (end_of_round vt status s).0 in
      let both = and_parts (not (is_none last.session.exited)) (is_empty last.clients) h in
      (λ e. is_none-not last.session.exited both.0 e, is_empty-nil last.clients both.1)

  -- If the event loop ends without an error, in rounds none of which finds the socket path missing,
  -- then the exit code is known and there is no client left.
  pub run-IsOver :
      (rounds : List Round) (s s' : Server vt)
      → All (λ round. round ≢ path_missing) rounds
      → run vt rounds s ≡ ok (s', true)
      → (s'.session.exited ≢ none) × (s'.clients ≡ [])
  unfolding run
  run-IsOver [] s s' n h = cc
  run-IsOver (path_missing ∷ rounds) s s' (n, ns) h = absurd (n refl)
  run-IsOver (poll_failed ∷ rounds) s s' n h = cc
  run-IsOver (polled events status ∷ rounds) s s' (n, ns) h =
      elim (Io-cases (on_events vt events s)) [
        | inl (s1, e) ↦
            let last = (end_of_round vt status s1).0 in
            elim (Bool-cases (end_of_round vt status s1).1) [
              | inl ends ↦
                  let same : last ≡ s' = cc (rw (e, ends, run) at h) in
                  subst IsOver same (end_of_round-IsOver status s1 ends)
              | inr goes_on ↦ run-IsOver rounds last s' ns (rw (e, goes_on, run) at h)
            ]
        | inr (inl (error, e)) ↦ cc (rw (e, run) at h)
        | inr (inr (inl e)) ↦ cc (rw (e, run) at h)
        | inr (inr (inr e)) ↦ cc (rw (e, run) at h)
      ]

  -- Over any rounds of the event loop that return: if the EXIT is marked as sent just if an exit
  -- code is known, so it is after; and a code that was known stays.
  pub run-IsReaped :
      (rounds : List Round) (s s' : Server vt) (ended : Bool)
      → IsReaped s
      → run vt rounds s ≡ ok (s', ended)
      → IsReaped s' × ((s.session.exited ≡ none) ⊎ (s'.session.exited ≡ s.session.exited))
  run-IsReaped rounds s s' ended r h = (
    run-holds vt keeps_exit reaped rounds r h,
    elim (Option-cases s.session.exited) [
      | inl e ↦ inl e
      | inr (code, e) ↦ inr (run-holds vt keeps_exit (known code) rounds e h ∙ sym e)
    ],
  )

  pub on_events-IsReaped :
      (events : List Event) (s s' : Server vt)
      → IsReaped s
      → on_events vt events s ≡ ok s'
      → IsReaped s'
  on_events-IsReaped events s s' = on_events-holds vt keeps_exit reaped events
