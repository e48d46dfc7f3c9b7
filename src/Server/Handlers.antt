-- ===== src/Server/Handlers.antt =====
-- src/server.rs: the handlers of the event loop. A handler takes what the operating system answers, and
-- returns the new server with its result.
use pterm.Common.{
  ◌==◌, if◌then◌else◌, ℕ, zero, suc, ◌+◌, Bool, true, false, none, some, List, [], ◌∷◌, ◌++◌, Bytes,
}
use pterm.Kitty.{csi}
use pterm.Io.{other, Io, ok, err, panic, waiting, Read, got}
use pterm.Proto.{Frame, Parsed, parse_resize, decode_frames}
use pterm.Proto.Client
use pterm.Server.{Client, Server, get, modify, remove, is_empty, flush_all_clients}
use pterm.Server.Broadcast.{send_snapshot_to_all_clients, flush_pty_output, redraw}
use pterm.Session.{Session, read_pty, write_pty, resize, take_queries}
use pterm.Vt.{Vt100}

-- ESC [ ? 62;22 c and ESC [ > 1;10;0 c
abbrev pub da1_response : Bytes
da1_response = csi "?62;22c"

abbrev pub da2_response : Bytes
da2_response = csi ">1;10;0c"

-- The length of `pty_buf`.
abbrev pub pty_buf_len : ℕ
pty_buf_len = 65536

-- A connection that `accept` returns: a stream with its answers, and whether `register` succeeds.
pub data Accept : Type 0 where
  connected : Client → Bool → Accept
  no_more : Accept
  broken : Accept

-- The new client of a stream.
abbrev pub new_client : Client → Client
new_client stream = record stream {
  recv_buf = [];
  send_buf = [];
  large_send_buf_warned = false;
  pending_snapshot = true;
}

module _ (vt : Vt100) where
  -- The loop of `accept_client` over what the listener answers.
  unfoldable pub accept_client : List Accept → Server vt → Io (Unit {0}) × Server vt
  accept_client [] s = (ok tt, s)
  accept_client (no_more ∷ answers) s = (ok tt, s)
  accept_client (broken ∷ answers) s = (err other, s)
  accept_client (connected stream registers ∷ answers) s =
      let id = s.next_client_id in
      let s' = record s {
        next_client_id = id + 1;
        clients = s.clients ++ (id, new_client stream) ∷ [];
      } in
      let rest = accept_client answers s' in
      if registers then rest else (err other, record s { next_client_id = id + 1 })

  -- The loop of `handle_pty_output` over what `read` answers: the session, the pending output, and the
  -- answers that the loop does not come to.
  unfoldable pub drain_pty :
      List Read
      → Session vt
      → Bytes
      → Io (record { session : Session vt; pending : Bytes; unread : List Read })
  drain_pty [] session pending = ok (record { session = session; pending = pending; unread = [] })
  drain_pty (answer ∷ answers) session pending = elim (read_pty vt pty_buf_len answer session) [
    | ok (session', none) ↦ ok (record { session = session'; pending = pending; unread = answers })
    | ok (session', some []) ↦
        ok (record { session = session'; pending = pending; unread = answers })
    | ok (session', some (b ∷ bs)) ↦ drain_pty answers session' (pending ++ b ∷ bs)
    | err _ ↦ ok (record { session = session; pending = pending; unread = answers })
    | panic ↦ panic
    | waiting ↦ waiting
  ]

  -- `for _ in 0..count`, with the `break` on an error.
  unfoldable pub respond : ℕ → Bytes → Session vt → Io (Session vt)
  respond zero response session = ok session
  respond (suc count) response session =
      let (result, session') = write_pty vt response session in
      elim result [
        | ok _ ↦ respond count response session'
        | err _ ↦ ok session'
        | panic ↦ panic
        | waiting ↦ waiting
      ]

  unfoldable pub respond_all : ℕ → ℕ → Session vt → Io (Session vt)
  unfolding respond
  respond_all da1 da2 session = elim (respond da1 da1_response session) [
    | ok session' ↦ respond da2 da2_response session'
    | err e ↦ err e
    | panic ↦ panic
    | waiting ↦ waiting
  ]

  -- The answers to device queries, which are written only while ECHO is known to be off.
  unfoldable pub answer_queries : Session vt → Io (Session vt)
  unfolding respond_all
  answer_queries session =
      let (counts, session') = take_queries vt session in
      elim session'.pty.echo [
        | some false ↦ respond_all counts.0 counts.1 session'
        | some true ↦ ok session'
        | none ↦ ok session'
      ]

  unfoldable pub handle_pty_output : List Read → Server vt → Io (Server vt)
  handle_pty_output answers s = elim (drain_pty answers s.session s.pending_pty_output) [
    | ok drained ↦ elim (answer_queries drained.session) [
      | ok session ↦ ok (
          flush_pty_output vt
            (record s { session = session; pending_pty_output = drained.pending }))
      | err e ↦ err e
      | panic ↦ panic
      | waiting ↦ waiting
    ]
    | err e ↦ err e
    | panic ↦ panic
    | waiting ↦ waiting
  ]

  unfoldable pub resize_frame : Parsed (ℕ × ℕ) → Server vt → Io (Server vt)
  resize_frame (Parsed.err e) s = ok s
  resize_frame (Parsed.ok (cols, rows)) s = elim (resize vt cols rows s.session) [
    | ok session ↦ ok (send_snapshot_to_all_clients vt true (record s { session = session }))
    | err e ↦ err e
    | panic ↦ panic
    | waiting ↦ waiting
  ]

  -- One frame: the new server and whether all clients are to be flushed at the end.
  unfoldable pub process_frame : Frame → Bool → Server vt → Io Bool × Server vt
  unfolding resize_frame
  process_frame frame flush_all s =
      if frame.msg_type == Client.input
      then (let (result, session) = write_pty vt frame.payload s.session in
          (
            elim result [ ok _ ↦ ok flush_all | err e ↦ err e | panic ↦ panic | waiting ↦ waiting ],
            record s { session = session },
          ))
      else if frame.msg_type == Client.resize
      then elim (resize_frame (parse_resize frame.payload) s) [
        | ok s' ↦ (ok flush_all, s')
        | err e ↦ (err e, s)
        | panic ↦ (panic, s)
        | waiting ↦ (waiting, s)
      ]
      else if frame.msg_type == Client.redraw
      then (ok true, redraw vt s)
      else (ok flush_all, s)

  unfoldable pub process_frames : List Frame → Bool → Server vt → Io Bool × Server vt
  process_frames [] flush_all s = (ok flush_all, s)
  process_frames (frame ∷ frames) flush_all s =
      let (result, s') = process_frame frame flush_all s in
      elim result [
        | ok flush_all' ↦ process_frames frames flush_all' s'
        | err e ↦ (err e, s')
        | panic ↦ (panic, s')
        | waiting ↦ (waiting, s')
      ]

  -- The buffer is taken out, and what the frames leave of it is put back at the end.
  unfoldable pub process_client_recv_buf : ℕ → Server vt → Io Bool × Server vt
  unfolding process_frames
  process_client_recv_buf id s = elim (get id s.clients) [
    | none ↦ (ok false, s)
    | some client ↦
        let (frames, rest) = decode_frames client.recv_buf in
        let taken = record s { clients = modify id (λ c. record c { recv_buf = [] }) s.clients } in
        let (result, s') = process_frames frames false taken in
        elim result [
          | ok flush_all ↦ (
            ok flush_all,
            record s' { clients = modify id (λ c. record c { recv_buf = rest }) s'.clients },
          )
          | err e ↦ (err e, s')
          | panic ↦ (panic, s')
          | waiting ↦ (waiting, s')
        ]
  ]

  -- What `handle_client_data` does with a client that has bytes to process.
  unfoldable pub process_client : ℕ → Server vt → Io (Unit {0}) × Server vt
  unfolding process_client_recv_buf
  process_client id s =
      let (result, s') = process_client_recv_buf id (flush_pty_output vt s) in
      elim result [
        | ok true ↦ (ok tt, record s' { clients = flush_all_clients s'.clients })
        | ok false ↦ (ok tt, s')
        | err e ↦ (err e, s')
        | panic ↦ (panic, s')
        | waiting ↦ (waiting, s')
      ]

  unfoldable pub received : ℕ → Server vt → Io (Unit {0}) × Server vt
  unfolding process_client
  received id s = elim (get id s.clients) [
    | none ↦ (ok tt, s)
    | some client ↦ if is_empty client.recv_buf then (ok tt, s) else process_client id s
  ]

  -- `handle_client_data`, where the socket answers `answer` to the read.
  unfoldable pub handle_client_data : ℕ → Read → Server vt → Io (Unit {0}) × Server vt
  unfolding received
  handle_client_data id answer s = elim (get id s.clients) [
    | none ↦ (ok tt, s)
    | some client ↦ elim answer [
      | got [] ↦ (ok tt, record s { clients = remove id s.clients })
      | got (b ∷ bs) ↦ received id (record s {
        clients = modify id (λ c. record c { recv_buf = c.recv_buf ++ b ∷ bs }) s.clients;
      })
      | Read.would_block ↦ received id s
      | Read.failed ↦ (ok tt, record s { clients = remove id s.clients })
    ]
  ]
