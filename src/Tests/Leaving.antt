-- ===== src/Tests/Leaving.antt =====
-- src/server.rs and src/bridge.rs together, from the daemon's start to the exit of its child.
use pterm.Common.{pos, codes, ◌≡◌, refl, true, false, none, List, [], ◌∷◌, ◌++◌, arith, Bytes}
use pterm.Bridge.{detach_cleanup_sequences}
use pterm.Bridge.Frames.{printed_all}
use pterm.Bridge.Reading.{reads}
use pterm.Bridge.Run
use pterm.Bridge.Run.{polled, token_socket, code}
use pterm.Bridge
use pterm.Commands.Daemon.{bind}
use pterm.Commands.{cmd_new}
use pterm.Io.{Read, got, ok, wrote}
use pterm.Paths.{session_dir}
use pterm.Paths.Files.{locate, node_at, create_dir_all}
use pterm.Proto.{Frame, encode, encode_exit}
use pterm.Proto.Server
use pterm.Pty.{spawn}
use pterm.Server.{
  flush_ids, Client, Server, get, flush_client, flush_client_send_buf, after_flush, remove,
  flush_all_clients,
}
use pterm.Server.Broadcast.{queue, queue_all, queue_snapshot, flush_pty_output}
use pterm.Server.Framing.{stream}
use pterm.Snapshot.{build_snapshot, build_prefix}
use pterm.Kitty.{append_snapshot}
use pterm.Callbacks.{passthrough_sequences_formatted, take_pending_da_queries}
use pterm.Vt.{handle_events}
use pterm.Filter.{filter, filter_byte}
use pterm.Server.Handlers.{
  handle_pty_output, drain_pty, answer_queries, connected, no_more, accept_client,
}
use pterm.Server.Run.{Round, Event, listener, pty_base, on_events, end_of_round, run}
use pterm.Server.Run as Loop
use pterm.Session.{read_pty, take_queries, exited, still_alive, snapshot, new_session, check_exit}
use pterm.System.Leaving.{end_of_round-code}
use pterm.System.Serve.{serve, new_server}
use pterm.Tests.Attach.{byte_writes-IsProgress, fresh}
use pterm.Tests.Daemon.{recorder, pty, session}
use pterm.Tests.Commands.{net}
use pterm.Tests.Start.{os, files, left, started, start}

-- A socket that takes all.
abbrev connecting : Client
connecting = record {
  recv_buf = [];
  send_buf = [];
  large_send_buf_warned = false;
  pending_snapshot = true;
  writes = wrote 1000 ∷ wrote 1000 ∷ [];
  sent = [];
  reregisters = true;
  writable = false;
}

-- A client connects in the first round.
abbrev before : List Round
before = Loop.polled (listener (connected connecting true ∷ no_more ∷ []) ∷ []) still_alive ∷ []

abbrev waiting : Server recorder
waiting = record start { clients = (0, connecting) ∷ []; next_client_id = 1 }

serves : serve recorder os net pty files left started before ≡ ok (waiting, false)
unfolding serve spawn bind create_dir_all locate session_dir cmd_new node_at run check_exit
    new_session flush_pty_output flush_all_clients queue_all accept_client
serves = refl

-- In the second round the child writes, and then exits.
abbrev now : List Event
now = pty_base (got (codes "out") ∷ Read.would_block ∷ []) ∷ []

abbrev screen : Bytes
screen = snapshot recorder (record session { screen = codes "out" })

-- The client has got the snapshot, and then the EXIT.
abbrev synced : Client
synced = (flush_client (queue_snapshot true screen connecting)).1

abbrev told : Client
told = (flush_client (queue (encode Server.exit (encode_exit (pos 3))) synced)).1

abbrev written : Server recorder
written = record waiting {
  session = record session { screen = codes "out" };
  clients = (0, synced) ∷ [];
}

handles : on_events recorder now waiting ≡ ok written
unfolding on_events new_session flush_pty_output handle_pty_output drain_pty read_pty handle_events
    filter filter_byte new_server answer_queries take_queries take_pending_da_queries flush_ids
    flush_client_send_buf
handles = refl

abbrev shown : List Frame
shown = record { msg_type = Server.state_sync; payload = screen } ∷ []

end_of_round-code_example :
    let r =
      Bridge.Run.run none none none
        (polled (token_socket (reads (stream told ∷ []) (Read.would_block ∷ [])) ∷ []) ∷ [])
        fresh in
    (r.1 ≡ code (pos 3))
    × (r.0.stdout ≡ fresh.stdout ++ (printed_all false shown ++ detach_cleanup_sequences))
unfolding end_of_round get flush_all_clients queue_all flush_pty_output flush_client_send_buf
    flush_client encode after_flush remove snapshot new_session encode_exit check_exit new_server
    build_snapshot passthrough_sequences_formatted build_prefix append_snapshot
end_of_round-code_example =
    end_of_round-code recorder os net pty files left started before now (exited (pos 3)) waiting
      written (pos 3) 0 synced told shown none none none (stream told ∷ []) [] [] [] fresh serves
      handles refl refl (omega arith) refl refl refl (omega arith) (omega arith) ((λ e. cc), tt)
      refl refl refl (tt, byte_writes-IsProgress 200) (omega arith)
