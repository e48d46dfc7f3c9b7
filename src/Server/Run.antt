-- ===== src/Server/Run.antt =====
-- src/server.rs, `run`: the event loop, as a sequence of rounds.
use pterm.Common.{
  if◌then◌else◌, is_none, ℤ, last, ℕ, Bool, true, false, not, ◌&&◌, Option, none, some, List, [],
  ◌∷◌,
}
use pterm.Io.{other, Io, ok, err, panic, waiting, Read}
use pterm.Proto.{encode, encode_exit}
use pterm.Proto.Server
use pterm.Server.{Server, remove, is_empty, is_err, flush_client_send_buf, flush_all_clients}
use pterm.Server.Broadcast.{queue_all, flush_pty_output}
use pterm.Server.Handlers.{Accept, accept_client, handle_pty_output, handle_client_data}
use pterm.Session.{WaitStatus, check_exit}
use pterm.Vt.{Vt100}

-- An event of the poll, with what the operating system answers in its handler. A client's event has the
-- answer to the read if it is readable, and whether it is writable.
pub data Event : Type 0 where
  listener : List Accept → Event
  client : ℕ → Option Read → Bool → Event
  pty_base : List Read → Event

-- A round finds the socket path missing or no socket, or the poll fails, or it handles some events
-- and then asks `waitpid`.
pub data Round : Type 0 where
  path_missing : Round
  poll_failed : Round
  polled : List Event → WaitStatus → Round

module _ (vt : Vt100) where
  -- A client is dropped on a read error, and on a write error.
  unfoldable pub on_readable : ℕ → Option Read → Server vt → Io (Server vt)
  on_readable id none s = ok s
  on_readable id (some answer) s =
      let (result, s') = handle_client_data vt id answer s in
      elim result [
        | ok _ ↦ ok s'
        | err e ↦ ok (record s' { clients = remove id s'.clients })
        | panic ↦ panic
        | waiting ↦ waiting
      ]

  unfoldable pub on_writable : ℕ → Bool → Server vt → Server vt
  on_writable id writable s =
      let (result, clients) = flush_client_send_buf id s.clients in
      if writable
      then record s { clients = if is_err result then remove id clients else clients }
      else s

  unfoldable pub on_event : Event → Server vt → Io (Server vt)
  unfolding on_readable on_writable
  on_event (listener answers) s = ok (accept_client vt answers s).1
  on_event (client id readable writable) s = elim (on_readable id readable s) [
    | ok s' ↦ ok (on_writable id writable s')
    | err e ↦ err e
    | panic ↦ panic
    | waiting ↦ waiting
  ]
  on_event (pty_base answers) s = handle_pty_output vt answers s

  unfoldable pub on_events : List Event → Server vt → Io (Server vt)
  unfolding on_event
  on_events [] s = ok s
  on_events (event ∷ events) s = elim (on_event event s) [
    | ok s' ↦ on_events events s'
    | err e ↦ err e
    | panic ↦ panic
    | waiting ↦ waiting
  ]

  -- The end of a round of `run`, where `waitpid` answers `status`: the server, and whether the loop ends.
  unfoldable pub exit_clients : ℤ → Server vt → Server vt
  exit_clients code s =
      let s' = flush_pty_output vt s in
      let msg = encode Server.exit (encode_exit code) in
      record s' { clients = flush_all_clients (queue_all msg s'.clients); exit_sent = true }

  unfoldable pub reap : WaitStatus → Server vt → Server vt
  unfolding exit_clients
  reap status s =
      let (code, session) = check_exit vt status s.session in
      elim code [
        | none ↦ record s { session = session }
        | some c ↦ exit_clients c (record s { session = session })
      ]

  unfoldable pub end_of_round : WaitStatus → Server vt → Server vt × Bool
  unfolding reap
  end_of_round status s =
      let last = if s.exit_sent then s else reap status s in
      (last, not (is_none last.session.exited) && is_empty last.clients)

  -- The loop: the server after some rounds, and whether the loop has ended.
  unfoldable pub run : List Round → Server vt → Io (Server vt × Bool)
  unfolding on_events end_of_round
  run [] s = ok (s, false)
  run (path_missing ∷ rounds) s = ok (s, true)
  run (poll_failed ∷ rounds) s = err other
  run (polled events status ∷ rounds) s = elim (on_events events s) [
    | ok s' ↦
        let (last, ended) = end_of_round status s' in
        let rest = run rounds last in if ended then ok (last, true) else rest
    | err e ↦ err e
    | panic ↦ panic
    | waiting ↦ waiting
  ]
