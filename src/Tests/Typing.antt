-- ===== src/Tests/Typing.antt =====
-- src/bridge.rs and src/server.rs together, on keys that are typed and on a new size.
use pterm.Common.{take, drop, pos, codes, ◌≡◌, refl, false, List, [], ◌∷◌, ◌++◌, arith, Bytes}
use pterm.System.Resizing.{resized, handle_client_data-resized}
use pterm.Server.Handlers.{handle_client_data}
use pterm.Bridge.{resize_message, Bridge, on_stdin}
use pterm.Bridge.Reading.{reads}
use pterm.Io.{ok, got, Read}
use pterm.Proto.{encode}
use pterm.Proto.Client
use pterm.Server.{get, Server}
use pterm.Server.Arrivals.{Arrived}
use pterm.System.Typing.{on_stdin-Arrived}
use pterm.Session.{new_session}
use pterm.Tests.Clients.{following, three_clients}
use pterm.Tests.Daemon.{recorder, session}

abbrev keys : List Bytes
keys = codes "l" ∷ codes "s" ∷ []

-- The socket cuts the two frames in the first header and in the second.
abbrev pieces : List Bytes
pieces =
    let sent = encode Client.input (codes "l") ++ encode Client.input (codes "s") in
    take 3 sent ∷ take 4 (drop 3 sent) ∷ drop 7 sent ∷ []

abbrev pub idle : Server recorder
idle = record {
  session = session;
  clients = three_clients;
  next_client_id = 4;
  pending_pty_output = [];
  exit_sent = false;
}

abbrev bridge : Bridge
bridge = record {
  recv_buf = [];
  exit_code = pos 0;
  stdout_writes = [];
  stdout = [];
  socket_writes = [];
  socket = [];
}

on_stdin-Arrived_example :
    ((on_stdin (reads keys (Read.would_block ∷ [])) bridge).1 ≡ false)
    × Arrived recorder 2 pieces idle (codes "ls") []
unfolding get encode new_session on_stdin
on_stdin-Arrived_example =
    on_stdin-Arrived recorder keys pieces [] bridge idle 2 following ((λ e. cc), ((λ e. cc), tt))
      (omega arith, (omega arith, tt)) refl refl refl refl (omega arith) (omega arith)
      ((λ e. cc), ((λ e. cc), ((λ e. cc), tt))) refl

handle_client_data-resized_example :
    let r = handle_client_data recorder 2 (got (resize_message (100, 40))) idle in
    (r.0 ≡ ok tt) × (r.1.session ≡ resized recorder (100, 40) idle.session)
unfolding get new_session
handle_client_data-resized_example =
    handle_client_data-resized recorder 2 following 100 40 idle refl refl refl (omega arith)
      (omega arith) refl
