-- ===== src/Server/Stable.antt =====
-- src/server.rs: what it takes for a relation between servers to hold over the handlers of the event loop,
-- and that it then does.
use pterm.Common.{
  ◌==◌, Bool-cases, Option-cases, ℕ, inl, inr, Bool, true, false, List, [], ◌∷◌, ◌++◌, Bytes,
}
use pterm.Server.Broadcast.{flush_pty_output, send_snapshot_to_all_clients, redraw}
use pterm.Io.{Read, got, Io-cases, Io, ok}
use pterm.Proto.{Frame, Parsed, parse_resize, decode_frames}
use pterm.Proto.Client
use pterm.Session.{Session, resize, write_pty}
use pterm.Vt.{Vt100}
use pterm.Server.{
  Client, is_empty, Server, get, modify, remove, flush_all_clients, flush_client_send_buf,
}
use pterm.Server.Handlers.{
  process_client, received, handle_client_data, drain_pty, answer_queries, handle_pty_output,
  resize_frame, process_frame, process_frames, process_client_recv_buf,
}
use pterm.Server.Continuing.{
  Continues, Continues-trans, OkContinues, resize-Continues, write_pty-Continues,
  drain_pty-Continues, answer_queries-Continues,
}

-- A relation that holds over a step that changes clients or session, but for the session's exit code and whether it is valid,
-- and over output that is read and sent.
pub record Stable (vt : Vt100) : Type 1 where
  pub relates : Server vt → Server vt → Type 0
  pub stays : (s : Server vt) → relates s s
  pub follows : {s s' s'' : Server vt} → relates s s' → relates s' s'' → relates s s''
  pub modifies :
      (id : ℕ) (change : Client → Client) (s : Server vt)
      → relates s (record s { clients = modify id change s.clients })
  pub removes : (id : ℕ) (s : Server vt) → relates s (record s { clients = remove id s.clients })
  pub flushes : (s : Server vt) → relates s (record s { clients = flush_all_clients s.clients })
  pub flushes_one :
      (id : ℕ) (s : Server vt)
      → relates s (record s { clients = (flush_client_send_buf id s.clients).1 })
  pub sends_output : (s : Server vt) → relates s (flush_pty_output vt s)
  pub sends_snapshots : (s : Server vt) → relates s (send_snapshot_to_all_clients vt true s)
  pub redraws : (s : Server vt) → relates s (redraw vt s)
  pub uses_session :
      (s : Server vt) (session : Session vt)
      → Continues vt s.session session
      → relates s (record s { session = session })
  pub reads_output :
      (s : Server vt) (session : Session vt) (pending : Bytes)
      → Continues vt s.session session
      → relates s
          (flush_pty_output vt (record s { session = session; pending_pty_output = pending }))

module _ (vt : Vt100) (stable : Stable vt) where
  open stable use {
    relates, stays, follows, modifies, removes, flushes, sends_output, sends_snapshots, redraws,
    uses_session, reads_output,
  }

  -- What holds of the server of a result, where it has one.
  abbrev pub OkRelates : Server vt → Io (Server vt) → Type 0
  OkRelates s (ok s') = relates s s'
  OkRelates s _ = Unit

  resize_frame-OkRelates :
      (size : Parsed (ℕ × ℕ)) (s : Server vt) → OkRelates s (resize_frame vt size s)
  unfolding resize_frame
  resize_frame-OkRelates (Parsed.err e) s = stays s
  resize_frame-OkRelates (Parsed.ok (cols, rows)) s =
      elim (Io-cases (resize vt cols rows s.session)) [
        | inl (session, e) ↦
            let same = resize-Continues vt cols rows s.session in
            rw (e, OkRelates, resize_frame)
              (follows (uses_session s session (rw (e, OkContinues) at same))
                (sends_snapshots (record s { session = session })))
        | inr (inl (error, e)) ↦ rw (e, OkRelates, resize_frame) tt
        | inr (inr (inl e)) ↦ rw (e, OkRelates, resize_frame) tt
        | inr (inr (inr e)) ↦ rw (e, OkRelates, resize_frame) tt
      ]

  process_frame-relates :
      (frame : Frame) (flush_all : Bool) (s : Server vt)
      → relates s (process_frame vt frame flush_all s).1
  unfolding process_frame resize_frame write_pty
  process_frame-relates frame flush_all s = elim (Bool-cases (frame.msg_type == Client.input)) [
    | inl i ↦ rw i (
        uses_session s (write_pty vt frame.payload s.session).1
          (write_pty-Continues vt frame.payload s.session))
    | inr i ↦ elim (Bool-cases (frame.msg_type == Client.resize)) [
      | inl r ↦
          let k = resize_frame-OkRelates (parse_resize frame.payload) s in
          elim (Io-cases (resize_frame vt (parse_resize frame.payload) s)) [
            | inl (s', e) ↦ rw (i, r, e) (rw e at k)
            | inr (inl (error, e)) ↦ rw (i, r, e) (stays s)
            | inr (inr (inl e)) ↦ rw (i, r, e) (stays s)
            | inr (inr (inr e)) ↦ rw (i, r, e) (stays s)
          ]
      | inr r ↦ elim (Bool-cases (frame.msg_type == Client.redraw)) [
        | inl d ↦ rw (i, r, d) (redraws s)
        | inr d ↦ rw (i, r, d) (stays s)
      ]
    ]
  ]

  process_frames-relates :
      (frames : List Frame) (flush_all : Bool) (s : Server vt)
      → relates s (process_frames vt frames flush_all s).1
  unfolding process_frames
  process_frames-relates [] flush_all s = stays s
  process_frames-relates (frame ∷ frames) flush_all s =
      let k = process_frame-relates frame flush_all s in
      let s' = (process_frame vt frame flush_all s).1 in
      elim (Io-cases (process_frame vt frame flush_all s).0) [
        | inl (flush_all', e) ↦
            rw (e, process_frames) (follows k (process_frames-relates frames flush_all' s'))
        | inr (inl (error, e)) ↦ rw (e, process_frames) k
        | inr (inr (inl e)) ↦ rw (e, process_frames) k
        | inr (inr (inr e)) ↦ rw (e, process_frames) k
      ]

  process_client_recv_buf-relates :
      (id : ℕ) (s : Server vt) → relates s (process_client_recv_buf vt id s).1
  unfolding process_client_recv_buf
  process_client_recv_buf-relates id s = elim (Option-cases (get id s.clients)) [
    | inl e ↦ rw (e, process_client_recv_buf) (stays s)
    | inr (c, e) ↦
        let (frames, rest) = decode_frames c.recv_buf in
        let taken = record s { clients = modify id (λ c. record c { recv_buf = [] }) s.clients } in
        let k =
          follows (modifies id (λ c. record c { recv_buf = [] }) s)
            (process_frames-relates frames false taken) in
        let s' = (process_frames vt frames false taken).1 in
        elim (Io-cases (process_frames vt frames false taken).0) [
          | inl (flush_all, p) ↦
              rw (e, p, process_client_recv_buf)
                (follows k (modifies id (λ c. record c { recv_buf = rest }) s'))
          | inr (inl (error, p)) ↦ rw (e, p, process_client_recv_buf) k
          | inr (inr (inl p)) ↦ rw (e, p, process_client_recv_buf) k
          | inr (inr (inr p)) ↦ rw (e, p, process_client_recv_buf) k
        ]
  ]

  process_client-relates : (id : ℕ) (s : Server vt) → relates s (process_client vt id s).1
  unfolding process_client
  process_client-relates id s =
      let flushed = flush_pty_output vt s in
      let k = follows (sends_output s) (process_client_recv_buf-relates id flushed) in
      let s' = (process_client_recv_buf vt id flushed).1 in
      elim (Io-cases (process_client_recv_buf vt id flushed).0) [
        | inl (true, e) ↦ rw (e, process_client) (follows k (flushes s'))
        | inl (false, e) ↦ rw (e, process_client) k
        | inr (inl (error, e)) ↦ rw (e, process_client) k
        | inr (inr (inl e)) ↦ rw (e, process_client) k
        | inr (inr (inr e)) ↦ rw (e, process_client) k
      ]

  received-relates : (id : ℕ) (s : Server vt) → relates s (received vt id s).1
  unfolding received
  received-relates id s = elim (Option-cases (get id s.clients)) [
    | inl e ↦ rw (e, received) (stays s)
    | inr (c, e) ↦ elim (Bool-cases (is_empty c.recv_buf)) [
      | inl none_left ↦ rw (e, none_left, received) (stays s)
      | inr some_left ↦ rw (e, some_left, received) (process_client-relates id s)
    ]
  ]

  -- Whatever a client sends, its handler adds no client.
  pub handle_client_data-relates :
      (id : ℕ) (answer : Read) (s : Server vt) → relates s (handle_client_data vt id answer s).1
  unfolding handle_client_data
  handle_client_data-relates id (got []) s = elim (Option-cases (get id s.clients)) [
    | inl e ↦ rw (e, handle_client_data) (stays s)
    | inr (c, e) ↦ rw (e, handle_client_data) (removes id s)
  ]
  handle_client_data-relates id (got (b ∷ bs)) s = elim (Option-cases (get id s.clients)) [
    | inl e ↦ rw (e, handle_client_data) (stays s)
    | inr (c, e) ↦
        let append : Client → Client = λ c. record c { recv_buf = c.recv_buf ++ b ∷ bs } in
        rw (e, handle_client_data)
          (follows (modifies id append s)
            (received-relates id (record s { clients = modify id append s.clients })))
  ]
  handle_client_data-relates id Read.would_block s = elim (Option-cases (get id s.clients)) [
    | inl e ↦ rw (e, handle_client_data) (stays s)
    | inr (c, e) ↦ rw (e, handle_client_data) (received-relates id s)
  ]
  handle_client_data-relates id Read.failed s = elim (Option-cases (get id s.clients)) [
    | inl e ↦ rw (e, handle_client_data) (stays s)
    | inr (c, e) ↦ rw (e, handle_client_data) (removes id s)
  ]

  pub handle_pty_output-OkRelates :
      (answers : List Read) (s : Server vt) → OkRelates s (handle_pty_output vt answers s)
  unfolding handle_pty_output
  handle_pty_output-OkRelates answers s =
      elim (Io-cases (drain_pty vt answers s.session s.pending_pty_output)) [
        | inl (drained, e) ↦ elim (Io-cases (answer_queries vt drained.session)) [
          | inl (session, q) ↦
              let d = drain_pty-Continues vt answers s.session s.pending_pty_output in
              let a = answer_queries-Continues vt drained.session in
              rw (e, q, OkRelates, handle_pty_output)
                (reads_output s session drained.pending
                  (Continues-trans vt (rw (e, OkContinues) at d) (rw (q, OkContinues) at a)))
          | inr (inl (error, q)) ↦ rw (e, q, OkRelates, handle_pty_output) tt
          | inr (inr (inl q)) ↦ rw (e, q, OkRelates, handle_pty_output) tt
          | inr (inr (inr q)) ↦ rw (e, q, OkRelates, handle_pty_output) tt
        ]
        | inr (inl (error, e)) ↦ rw (e, OkRelates, handle_pty_output) tt
        | inr (inr (inl e)) ↦ rw (e, OkRelates, handle_pty_output) tt
        | inr (inr (inr e)) ↦ rw (e, OkRelates, handle_pty_output) tt
      ]
