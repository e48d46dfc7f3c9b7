-- ===== src/Tests/System.antt =====
-- src/server.rs and src/bridge.rs together, on concrete output.
use pterm.Common.{
  length, take, drop, length-append, pos, codes, ◌≡◌, refl, sym, ap, ◌∙◌, ◌≢◌, false, List, [], ◌∷◌,
  ◌++◌, arith,
}
use pterm.Bridge.{Bridge, on_socket}
use pterm.Bridge.Frames.{printed_all}
use pterm.Bridge.Reading.{reads}
use pterm.Io.{Read, Write, wrote}
use pterm.Proto.Server
use pterm.Proto.{Frame, encode}
use pterm.Server.{
  flush_ids, flush_client_send_buf, after_flush, remove, Client, Server, flush_client, get,
}
use pterm.Server.Broadcast.{flush_pty_output, queue, broadcast_output}
use pterm.Server.Framing.{stream}
use pterm.Session.{snapshot, new_session}
use pterm.Snapshot.{build_snapshot}
use pterm.System.{next_frame, flush_pty_output-prints}
use pterm.Callbacks.Queue.{concat}
use pterm.Snapshot.Layout.{build_snapshot-layout, prefix_of, cursor}
use pterm.Tests.Clients.{following, three_clients}
use pterm.Tests.Daemon.{recorder, session}

abbrev pub server : Server recorder
server = record {
  session = record session { screen = codes "screen" };
  clients = three_clients;
  next_client_id = 4;
  pending_pty_output = codes "out";
  exit_sent = false;
}

-- The second client has been sent the output in part.
abbrev pub served : Client
served = (flush_client (queue (encode Server.output (codes "out")) following)).1

abbrev pub shown : List Frame
shown = next_frame (snapshot recorder server.session) server.pending_pty_output following ∷ []

pub snapshot-full : snapshot recorder server.session ≢ []
unfolding snapshot new_session
snapshot-full e =
    let callbacks = server.session.callbacks in
    let prefix = prefix_of false callbacks in
    let rest = concat callbacks.passthrough_sequences ++ cursor callbacks.cursor_shape in
    let layout = build_snapshot-layout recorder (codes "screen") callbacks in
    omega (
      arith,
      ap length (sym layout ∙ e),
      length-append prefix (codes "screen" ++ rest),
      length-append (codes "screen") rest,
    )

abbrev terminal : Bridge
terminal = record {
  recv_buf = [];
  exit_code = pos 0;
  stdout_writes = wrote 1 ∷ Write.would_block ∷ wrote 1 ∷ wrote 7 ∷ [];
  stdout = codes "$ ";
  socket_writes = [];
  socket = [];
}

flush_pty_output-prints_example :
    let r =
      on_socket
        (reads (take 3 (stream served) ∷ drop 3 (stream served) ∷ []) (Read.would_block ∷ []))
        terminal in
    (r.1 ≡ false) × (r.0.stdout ≡ terminal.stdout ++ printed_all false shown) × (r.0.recv_buf ≡ [])
unfolding flush_pty_output broadcast_output flush_client get queue encode snapshot build_snapshot
    new_session flush_ids flush_client_send_buf after_flush remove
flush_pty_output-prints_example =
    flush_pty_output-prints recorder server 2 following served []
      (take 3 (stream served) ∷ drop 3 (stream served) ∷ []) [] terminal (omega arith) refl refl
      (λ e. cc) snapshot-full refl (omega arith) tt ((λ e. cc), ((λ e. cc), tt)) refl refl
      (omega arith) (omega arith)
