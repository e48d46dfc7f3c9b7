-- ===== src/System/Resizing.antt =====
-- src/bridge.rs and src/server.rs together, when the terminal has another size.
use pterm.Common.{
  ℕ, ◌^◌, ◌<◌, ◌≡◌, refl, sym, ap, ◌∙◌, inl, Bool, true, false, some, [], ◌∷◌, ◌++◌, append-nil,
  arith, Bytes,
}
use pterm.Bridge.{resize_message}
use pterm.Io.{ok, got}
use pterm.Proto.{Frame, Parsed, encode, encode_resize, decode_frames}
use pterm.Proto.Client
use pterm.Proto.Payloads.{parse_resize-encode_resize}
use pterm.Proto.Stream.{decode_frames-encode_all}
use pterm.Pty.Sizing.{set_winsize-ok}
use pterm.Pty.{Pty}
use pterm.Pty
use pterm.Server.{Client, Server, get, modify}
use pterm.Server.Broadcast.{send_snapshot_to_all_clients}
use pterm.Server.Handlers.{
  handle_client_data, received, process_client, process_client_recv_buf, process_frames,
  process_frame, resize_frame,
}
use pterm.Server.Typing.{flush_pty_output-quiet, is_empty-append, get-modify}
use pterm.Session.{Session, resize}
use pterm.Vt.{Vt100}

module _ (vt : Vt100) where
  -- The session on a PTY and a screen of another size.
  abbrev pub resized : ℕ × ℕ → Session vt → Session vt
  resized size s = record s {
    pty = record s.pty { winsize = size };
    screen = vt.set_size size.1 size.0 s.screen;
  }

  resize-resized :
      (cols rows : ℕ) (s : Session vt)
      → s.pty.resizable ≡ true
      → resize vt cols rows s ≡ ok (resized (cols, rows) s)
  unfolding resize Pty.resize
  resize-resized cols rows s e = rw (set_winsize-ok cols rows s.pty e, resize, Pty.resize) refl

  resize_frame-resized :
      (cols rows : ℕ) (s : Server vt)
      → s.session.pty.resizable ≡ true
      → resize_frame vt (Parsed.ok (cols, rows)) s
        ≡ ok (
            send_snapshot_to_all_clients vt true
              (record s { session = resized (cols, rows) s.session }))
  unfolding resize_frame
  resize_frame-resized cols rows s e = rw (resize-resized cols rows s.session e, resize_frame) refl

  abbrev frame_of : ℕ → ℕ → Frame
  frame_of cols rows = record { msg_type = Client.resize; payload = encode_resize cols rows }

  process_frame-resized :
      (cols rows : ℕ) (flush_all : Bool) (s : Server vt)
      → cols < 2 ^ 16
      → rows < 2 ^ 16
      → s.session.pty.resizable ≡ true
      → process_frame vt (frame_of cols rows) flush_all s ≡ (
        ok flush_all,
        send_snapshot_to_all_clients vt true
            (record s { session = resized (cols, rows) s.session }),
      )
  unfolding process_frame
  process_frame-resized cols rows flush_all s c r e =
      rw
        (
          parse_resize-encode_resize cols rows c r,
          resize_frame-resized cols rows s e,
          process_frame,
        )
        refl

  process_frames-resized :
      (cols rows : ℕ) (s : Server vt)
      → cols < 2 ^ 16
      → rows < 2 ^ 16
      → s.session.pty.resizable ≡ true
      → process_frames vt (frame_of cols rows ∷ []) false s ≡ (
        ok false,
        send_snapshot_to_all_clients vt true
            (record s { session = resized (cols, rows) s.session }),
      )
  unfolding process_frames
  process_frames-resized cols rows s c r e =
      let one = process_frame-resized cols rows false s c r e in
      rw (ap (λ r. r.0) one, ap (λ r. r.1) one, process_frames)

  decode-message :
      (cols rows : ℕ) → decode_frames (resize_message (cols, rows)) ≡ (frame_of cols rows ∷ [], [])
  unfolding resize_message encode_resize
  decode-message cols rows =
      ap decode_frames (
        sym (
          append-nil (resize_message (cols, rows) ++ [])
          ∙ append-nil (resize_message (cols, rows))))
      ∙ decode_frames-encode_all (frame_of cols rows ∷ []) [] (omega arith, tt) (inl (omega arith))

  snapshots-session : (s : Server vt) → (send_snapshot_to_all_clients vt true s).session ≡ s.session
  unfolding send_snapshot_to_all_clients
  snapshots-session s = refl

  process_client_recv_buf-resized :
      (id : ℕ) (c : Client) (cols rows : ℕ) (s : Server vt)
      → get id s.clients ≡ some c
      → c.recv_buf ≡ resize_message (cols, rows)
      → cols < 2 ^ 16
      → rows < 2 ^ 16
      → s.session.pty.resizable ≡ true
      → ((process_client_recv_buf vt id s).0 ≡ ok false)
        × ((process_client_recv_buf vt id s).1.session ≡ resized (cols, rows) s.session)
  unfolding process_client_recv_buf
  process_client_recv_buf-resized id c cols rows s e m lc lr r =
      let emptied : Server vt = record s {
        clients = modify id (λ c. record c { recv_buf = [] }) s.clients;
      } in
      let d = ap decode_frames m ∙ decode-message cols rows in
      let whole =
        ap (λ r. process_frames vt r.0 false emptied) d
        ∙ process_frames-resized cols rows emptied lc lr r in
      (
        rw (e, ap (λ r. r.0) whole, process_client_recv_buf) refl,
        rw (e, ap (λ r. r.0) whole, process_client_recv_buf)
            (ap (λ r. r.1.session) whole ∙ snapshots-session _),
      )

  -- A client that has sent the message and nothing else.
  process_client-resized :
      (id : ℕ) (c : Client) (cols rows : ℕ) (s : Server vt)
      → get id s.clients ≡ some c
      → c.recv_buf ≡ resize_message (cols, rows)
      → s.pending_pty_output ≡ []
      → cols < 2 ^ 16
      → rows < 2 ^ 16
      → s.session.pty.resizable ≡ true
      → ((process_client vt id s).0 ≡ ok tt)
        × ((process_client vt id s).1.session ≡ resized (cols, rows) s.session)
  unfolding process_client
  process_client-resized id c cols rows s e m quiet lc lr r =
      let (done, same) = process_client_recv_buf-resized id c cols rows s e m lc lr r in
      let idle = flush_pty_output-quiet vt s quiet in
      let result = ap (λ s. (process_client_recv_buf vt id s).0) idle ∙ done in
      (
        rw (result, process_client) refl,
        rw (result, process_client)
            (ap (λ s. (process_client_recv_buf vt id s).1.session) idle ∙ same),
      )

  handle_client_data-read :
      (id : ℕ) (c : Client) (cols rows b : ℕ) (bs : Bytes) (s : Server vt)
      → b ∷ bs ≡ resize_message (cols, rows)
      → get id s.clients ≡ some c
      → c.recv_buf ≡ []
      → s.pending_pty_output ≡ []
      → cols < 2 ^ 16
      → rows < 2 ^ 16
      → s.session.pty.resizable ≡ true
      → let r = handle_client_data vt id (got (b ∷ bs)) s in
        (r.0 ≡ ok tt) × (r.1.session ≡ resized (cols, rows) s.session)
  unfolding handle_client_data received
  handle_client_data-read id c cols rows b bs s m e empty quiet lc lr r =
      let append : Client → Client = λ c. record c { recv_buf = c.recv_buf ++ b ∷ bs } in
      let grown : Server vt = record s { clients = modify id append s.clients } in
      let there = get-modify id append s.clients c e in
      let full = is_empty-append c.recv_buf b bs in
      let buf = ap (λ buf. buf ++ b ∷ bs) empty ∙ m in
      rw (e, there, full, handle_client_data, received)
        (process_client-resized id (append c) cols rows grown there buf quiet lc lr r)

  -- Where a client is there with nothing left unread, no output is pending, the PTY takes its size,
  -- and the size is of two u16: the RESIZE that a bridge sends for the size, read whole, is handled
  -- without an error, the PTY and then the screen of the session have that size, and nothing else
  -- of the session has changed.
  pub handle_client_data-resized :
      (id : ℕ) (c : Client) (cols rows : ℕ) (s : Server vt)
      → get id s.clients ≡ some c
      → c.recv_buf ≡ []
      → s.pending_pty_output ≡ []
      → cols < 2 ^ 16
      → rows < 2 ^ 16
      → s.session.pty.resizable ≡ true
      → let r = handle_client_data vt id (got (resize_message (cols, rows))) s in
        (r.0 ≡ ok tt) × (r.1.session ≡ resized (cols, rows) s.session)
  unfolding resize_message encode
  handle_client_data-resized id c cols rows s e empty quiet lc lr r =
      handle_client_data-read id c cols rows _ _ s refl e empty quiet lc lr r
