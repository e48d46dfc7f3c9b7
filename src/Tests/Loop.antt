-- ===== src/Tests/Loop.antt =====
-- src/server.rs, the event loop on concrete rounds.
use pterm.Common.{pos, codes, ◌≡◌, refl, true, false, some, List, [], ◌∷◌, arith}
use pterm.Io.{ok, got}
use pterm.Proto.{encode, encode_exit}
use pterm.Proto.Server
use pterm.Session.{check_exit, new_session, still_alive}
use pterm.Server.{get, remove, Client, Server}
use pterm.Server.Broadcast.{queue}
use pterm.Server.Clients.{delivered}
use pterm.Server.Exit.{no_client, exit_clients-delivered}
use pterm.Server.Handlers.{handle_client_data, accept_client, connected, no_more}
use pterm.Server.Run.{listener, client, Round, polled, exit_clients, run}
use pterm.Server.RunIds.{HasValidIds, run-HasValidIds}
use pterm.Tests.Clients.{awaiting, lost, three_clients}
use pterm.Tests.Daemon.{recorder, session}

abbrev daemon : Server recorder
daemon = record {
  session = session;
  clients = three_clients;
  next_client_id = 4;
  pending_pty_output = codes "out";
  exit_sent = false;
}

daemon-HasValidIds : HasValidIds recorder daemon
daemon-HasValidIds = omega arith

abbrev stream : Client
stream = record {
  recv_buf = [];
  send_buf = [];
  large_send_buf_warned = false;
  pending_snapshot = true;
  writes = [];
  sent = [];
  reregisters = true;
  writable = false;
}

-- A fourth client connects, and the second one goes.
abbrev rounds : List Round
rounds =
    polled (listener (connected stream true ∷ no_more ∷ []) ∷ client 2 (some (got [])) false ∷ [])
      still_alive
    ∷ []

abbrev later : Server recorder
later = record daemon { next_client_id = 5; clients = (1, awaiting) ∷ (3, lost) ∷ (4, stream) ∷ [] }

run-rounds : run recorder rounds daemon ≡ ok (later, false)
unfolding run handle_client_data get accept_client check_exit new_session remove
run-rounds = refl

run-HasValidIds_example : HasValidIds recorder later
run-HasValidIds_example =
    run-HasValidIds recorder rounds daemon later false daemon-HasValidIds run-rounds

-- The same clients where nothing waits, as at the end of any round.
abbrev quiet : Server recorder
quiet = record daemon { pending_pty_output = [] }

exit_clients-delivered_example :
    ((exit_clients recorder (pos 3) quiet).clients
      ≡ delivered no_client
          (λ c. c)
          (queue (encode Server.exit (encode_exit (pos 3))))
          three_clients)
    × ((exit_clients recorder (pos 3) quiet).pending_pty_output ≡ [])
    × ((exit_clients recorder (pos 3) quiet).exit_sent ≡ true)
exit_clients-delivered_example = exit_clients-delivered recorder (pos 3) quiet (omega arith)
