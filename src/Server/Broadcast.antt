-- ===== src/Server/Broadcast.antt =====
-- src/server.rs: snapshots and output to the clients.
use pterm.Common.{◌==◌, if◌then◌else◌, ℕ, Bool, true, false, ◌||◌, List, [], ◌∷◌, ◌++◌, Bytes}
use pterm.Kitty.{csi}
use pterm.Proto.{encode}
use pterm.Proto.Server
use pterm.Server.{Client, Clients, Server, modify, keys, is_empty, flush_client_send_buf, flush_ids}
use pterm.Session.{snapshot}
use pterm.Vt.{Vt100}

-- The change of the client in `send_snapshot_to_client`, before the flush.
unfoldable pub queue_snapshot : Bool → Bytes → Client → Client
queue_snapshot replace_send_buf snapshot client =
    let queue = if replace_send_buf then [] else client.send_buf in
    record client {
      pending_snapshot = false;
      send_buf = if is_empty snapshot then queue else queue ++ encode Server.state_sync snapshot;
    }

-- A flush that fails is only logged.
unfoldable pub send_snapshot : Bool → Bytes → ℕ → Clients → Clients
unfolding queue_snapshot
send_snapshot replace_send_buf snapshot id clients =
    (flush_client_send_buf id (modify id (queue_snapshot replace_send_buf snapshot) clients)).1

unfoldable pub send_snapshots : Bool → Bytes → List ℕ → Clients → Clients
unfolding send_snapshot
send_snapshots replace_send_buf snapshot [] clients = clients
send_snapshots replace_send_buf snapshot (id ∷ ids) clients =
    send_snapshots replace_send_buf snapshot ids
      (send_snapshot replace_send_buf snapshot id clients)

unfoldable pub snapshot_ids : Clients → List ℕ
snapshot_ids [] = []
snapshot_ids ((id, client) ∷ clients) =
    let rest = snapshot_ids clients in if client.pending_snapshot then id ∷ rest else rest

unfoldable pub contains : List ℕ → ℕ → Bool
contains [] id = false
contains (x ∷ xs) id = x == id || contains xs id

unfoldable pub queue : Bytes → Client → Client
queue msg client = record client { send_buf = client.send_buf ++ msg }

-- The loop of `flush_pty_output` over the clients: those outside `skipped` get the message.
unfoldable pub queue_output : List ℕ → Bytes → Clients → List ℕ × Clients
unfolding queue
queue_output skipped msg [] = ([], [])
queue_output skipped msg ((id, client) ∷ clients) =
    let (ids, rest) = queue_output skipped msg clients in
    if contains skipped id
    then (ids, (id, client) ∷ rest)
    else (id ∷ ids, (id, queue msg client) ∷ rest)

unfoldable pub queue_all : Bytes → Clients → Clients
unfolding queue
queue_all msg [] = []
queue_all msg ((id, client) ∷ clients) = (id, queue msg client) ∷ queue_all msg clients

-- The clients' part of `flush_pty_output`, for a non-empty output.
unfoldable pub broadcast_output : Bytes → Bytes → Clients → Clients
unfolding send_snapshots snapshot_ids contains queue_output
broadcast_output snapshot output clients =
    let skipped = snapshot_ids clients in
    let clients' = send_snapshots true snapshot skipped clients in
    let (ids, queued) = queue_output skipped (encode Server.output output) clients' in
    flush_ids ids queued

-- ESC [ 2 J and ESC [ H
abbrev pub clear_screen : Bytes
clear_screen = csi "2J" ++ csi "H"

module _ (vt : Vt100) where
  unfoldable pub send_snapshot_to_all_clients : Bool → Server vt → Server vt
  unfolding send_snapshots
  send_snapshot_to_all_clients replace_send_buf s = record s {
    clients = send_snapshots replace_send_buf (snapshot vt s.session) (keys s.clients) s.clients;
  }

  unfoldable pub flush_pty_output : Server vt → Server vt
  unfolding broadcast_output
  flush_pty_output s = if is_empty s.pending_pty_output then s else record s {
    clients = broadcast_output (snapshot vt s.session) s.pending_pty_output s.clients;
    pending_pty_output = [];
  }

  -- The branch of REDRAW, but for the flush that follows the frames.
  unfoldable pub redraw : Server vt → Server vt
  unfolding queue_all
  redraw s =
      let redraw_data = clear_screen ++ snapshot vt s.session in
      record s { clients = queue_all (encode Server.state_sync redraw_data) s.clients }
