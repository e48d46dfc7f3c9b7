-- ===== src/Server/RunIds.antt =====
-- src/server.rs: the client ids over the event loop.
use pterm.Common.{
  Bytes, Bool-cases, Option-cases, ℤ, ℕ, ◌+◌, ◌<◌, ◌≡◌, refl, sym, subst, ◌≢◌, inl, inr, Bool, true,
  false, List, [], ◌∷◌, ◌++◌, arith,
}
use pterm.Server.Broadcast.{flush_pty_output}
use pterm.Session.{Session, check_exit, WaitStatus}
use pterm.Io.{ok}
use pterm.Vt.{Vt100}
use pterm.Server.{Session, Client, Clients, Server}
use pterm.Server.Clients.{Fresh, Distinct}
use pterm.Server.Handlers.{Accept, connected, no_more, broken, new_client, accept_client}
use pterm.Server.Stable.{Stable}
use pterm.Server.Held.{Held, run-holds, on_events-holds}
use pterm.Server.Run.{Event, on_events, Round, reap, run, exit_clients, end_of_round}
use pterm.Server.Ids.{
  flush_all_clients-Keeps, Keeps, Keeps-refl, queue_all-Keeps, flush_pty_output-KeepsIds, Below,
  modify-Keeps, Keeps-trans, remove-Keeps, flush_client_send_buf-Keeps, IsValid, Keeps-IsValid,
  KeepsIds, KeepsIds-refl, KeepsIds-trans, send_snapshot_to_all_clients-KeepsIds, redraw-KeepsIds,
}

-- An id that no client has yet.
Below-Fresh : (n : ℕ) (cs : Clients) → Below n cs → Fresh n cs
Below-Fresh n [] b = tt
Below-Fresh n ((id, c) ∷ cs) (h, b) = (ground arith, Below-Fresh n cs b)

Below-suc : (n : ℕ) (cs : Clients) → Below n cs → Below (n + 1) cs
Below-suc n [] b = tt
Below-suc n ((id, c) ∷ cs) (h, b) = (omega arith, Below-suc n cs b)

Below-append :
    (n id : ℕ) (c : Client) (cs : Clients) → id < n → Below n cs → Below n (cs ++ (id, c) ∷ [])
Below-append n id c [] h b = (h, tt)
Below-append n id c ((key, d) ∷ cs) h (k, b) = (k, Below-append n id c cs h b)

Fresh-append :
    (i id : ℕ) (c : Client) (cs : Clients) → id ≢ i → Fresh i cs → Fresh i (cs ++ (id, c) ∷ [])
Fresh-append i id c [] h f = (h, tt)
Fresh-append i id c ((key, d) ∷ cs) h (k, f) = (k, Fresh-append i id c cs h f)

Distinct-append :
    (id : ℕ) (c : Client) (cs : Clients) → Fresh id cs → Distinct cs → Distinct (cs ++ (id, c) ∷ [])
Distinct-append id c [] f d = (tt, tt)
Distinct-append id c ((key, e) ∷ cs) (h, f) (g, d) =
    (Fresh-append key id c cs (λ e. h (sym e)) g, Distinct-append id c cs f d)

-- The next id may be given to a client.
IsValid-append :
    (n : ℕ) (c : Client) (cs : Clients) → IsValid n cs → IsValid (n + 1) (cs ++ (n, c) ∷ [])
IsValid-append n c cs v = record {
  distinct = Distinct-append n c cs (Below-Fresh n cs v.below) v.distinct;
  below = Below-append (n + 1) n c cs (omega arith) (Below-suc n cs v.below);
}

module _ (vt : Vt100) where
  abbrev pub HasValidIds : Server vt → Type 0
  HasValidIds s = IsValid s.next_client_id s.clients

  -- A change of the clients alone.
  clients-KeepsIds :
      (s : Server vt) {cs : Clients}
      → Keeps s.clients cs
      → KeepsIds vt s (record s { clients = cs })
  clients-KeepsIds s k = record { clients = k; next = refl }

  KeepsIds-IsValid : {s s' : Server vt} → KeepsIds vt s s' → HasValidIds s → HasValidIds s'
  KeepsIds-IsValid {s} {s'} k v =
      subst (λ n. IsValid n s'.clients) (sym k.next) (Keeps-IsValid k.clients v)

  accept_client-IsValid :
      (answers : List Accept) (s : Server vt)
      → HasValidIds s
      → HasValidIds (accept_client vt answers s).1
  unfolding accept_client
  accept_client-IsValid [] s v = v
  accept_client-IsValid (no_more ∷ answers) s v = v
  accept_client-IsValid (broken ∷ answers) s v = v
  accept_client-IsValid (connected stream false ∷ answers) s v = record {
    distinct = v.distinct;
    below = Below-suc s.next_client_id s.clients v.below;
  }
  accept_client-IsValid (connected stream true ∷ answers) s v =
      accept_client-IsValid answers _
        (IsValid-append s.next_client_id (new_client stream) s.clients v)

  reads_output-KeepsIds :
      (s : Server vt) (session : Session vt) (pending : Bytes)
      → KeepsIds vt s
          (flush_pty_output vt (record s { session = session; pending_pty_output = pending }))
  reads_output-KeepsIds s session pending =
      let k =
        flush_pty_output-KeepsIds vt
          (record s { session = session; pending_pty_output = pending }) in
      record { clients = k.clients; next = k.next }

  abbrev keeps_ids : Stable vt
  keeps_ids = record {
    relates = KeepsIds vt;
    stays = λ s. KeepsIds-refl vt;
    follows = KeepsIds-trans vt;
    modifies = λ id change s. clients-KeepsIds s (modify-Keeps id change s.clients);
    removes = λ id s. clients-KeepsIds s (remove-Keeps id s.clients);
    flushes = λ s. clients-KeepsIds s (flush_all_clients-Keeps s.clients);
    flushes_one = λ id s. clients-KeepsIds s (flush_client_send_buf-Keeps id s.clients);
    sends_output = flush_pty_output-KeepsIds vt;
    sends_snapshots = send_snapshot_to_all_clients-KeepsIds vt true;
    redraws = redraw-KeepsIds vt;
    uses_session = λ s session same. record { clients = Keeps-refl; next = refl };
    reads_output = λ s session pending same. reads_output-KeepsIds s session pending;
  }

  exit_clients-KeepsIds : (code : ℤ) (s : Server vt) → KeepsIds vt s (exit_clients vt code s)
  unfolding exit_clients
  exit_clients-KeepsIds code s =
      let k = flush_pty_output-KeepsIds vt s in
      let queued = queue_all-Keeps _ (flush_pty_output vt s).clients in
      record {
        clients = Keeps-trans k.clients (Keeps-trans queued (flush_all_clients-Keeps _));
        next = k.next;
      }

  reap-KeepsIds : (status : WaitStatus) (s : Server vt) → KeepsIds vt s (reap vt status s)
  unfolding reap
  reap-KeepsIds status s = elim (Option-cases (check_exit vt status s.session).0) [
    | inl e ↦ rw (e, reap) (record { clients = Keeps-refl; next = refl })
    | inr (code, e) ↦
        let s' : Server vt = record s { session = (check_exit vt status s.session).1 } in
        let k = exit_clients-KeepsIds code s' in
        rw (e, reap) (record { clients = k.clients; next = k.next })
  ]

  end_of_round-KeepsIds :
      (status : WaitStatus) (s : Server vt) → KeepsIds vt s (end_of_round vt status s).0
  unfolding end_of_round
  end_of_round-KeepsIds status s = elim (Bool-cases s.exit_sent) [
    | inl sent ↦ simp sent (KeepsIds-refl vt)
    | inr unsent ↦ simp unsent (reap-KeepsIds status s)
  ]

  abbrev valid_ids : Held vt keeps_ids
  valid_ids = record {
    holds = HasValidIds;
    holds_on = KeepsIds-IsValid;
    accepts = accept_client-IsValid;
    ends = λ status s. KeepsIds-IsValid (end_of_round-KeepsIds status s);
  }

  -- Over any rounds of the event loop that return, whatever the clients, the PTY and the operating
  -- system answer: if the ids of the clients are distinct and below the next one before, so they
  -- are after.
  pub run-HasValidIds :
      (rounds : List Round) (s s' : Server vt) (ended : Bool)
      → HasValidIds s
      → run vt rounds s ≡ ok (s', ended)
      → HasValidIds s'
  run-HasValidIds rounds s s' ended = run-holds vt keeps_ids valid_ids rounds

  pub on_events-HasValidIds :
      (events : List Event) (s s' : Server vt)
      → HasValidIds s
      → on_events vt events s ≡ ok s'
      → HasValidIds s'
  on_events-HasValidIds events s s' = on_events-holds vt keeps_ids valid_ids events
