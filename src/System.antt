-- ===== src/System.antt =====
-- src/server.rs and src/bridge.rs at the two ends of a socket: what PTY output makes a terminal show.
pub mod Leaving
pub mod Ending
pub mod Resizing
pub mod Serve
pub mod Typing
use pterm.Bridge.{is_err, on_socket, Bridge}
use pterm.Bridge.Exit.{IsProgress, count_writes, print-Written}
use pterm.Bridge.Frames.{process_socket-prints, printed_all, IsNotExit}
use pterm.Session.{snapshot}
use pterm.Bridge.Reading.{concat, reads, on_socket-reads}
use pterm.Server.Framing.{is_empty-ne, queue_snapshot-stream, flush_client-stream, stream}
use pterm.Io.{Read}
use pterm.Vt.{Vt100}
use pterm.Server.Delivery.{broadcast_output-delivered, after_snapshot}
use pterm.Server.Broadcast.{flush_pty_output, broadcast_output, queue}
use pterm.Common.{
  ◌≤◌, false, length, All, ap, append-nil, true, sym, ◌∙◌, ◌≢◌, Bytes, ◌==◌, if◌then◌else◌, ==_iff,
  Bool-cases, ℕ, ◌≡◌, refl, subst, inl, inr, Bool, none, some, List, [], ◌∷◌, ◌++◌, append_assoc,
  arith,
}
use pterm.Proto.Server
use pterm.Proto.{encode, Frame}
use pterm.Proto.Stream.{FitsU32, encode_all}
use pterm.Server.{Server, Client, Clients, flush_client, get}
use pterm.Server.Clients.{Fresh, Distinct, delivered}

encode_all-append : (fs gs : List Frame) → encode_all (fs ++ gs) ≡ encode_all fs ++ encode_all gs
encode_all-append [] gs = refl
encode_all-append (f ∷ fs) gs = rw (encode_all-append fs gs, append_assoc)

module _ (skip : Client → Bool) (g h : Client → Client) where
  abbrev left : Clients → Clients
  left cs = delivered skip g h cs

  get-left_fresh : (id : ℕ) (cs : Clients) → Fresh id cs → get id (left cs) ≡ none
  unfolding get
  get-left_fresh id [] f = refl
  get-left_fresh id ((key, c) ∷ cs) (n, f) = ground (arith, get-left_fresh id cs f)

  -- A client that is left is what the pass makes of it.
  get-left :
      (id : ℕ) (cs : Clients) (c c' : Client)
      → Distinct cs
      → get id cs ≡ some c
      → get id (left cs) ≡ some c'
      → c' ≡ (if skip c then g c else (flush_client (h c)).1)
  unfolding get
  get-left id [] c c' d e e' = cc
  get-left id ((key, k) ∷ cs) c c' (f, d) e e' = elim (Bool-cases (key == id)) [
    | inl same ↦
        let fresh = get-left_fresh id cs (subst (λ i. Fresh i cs) ((==_iff key id).0 same) f) in
        ground (arith, fresh)
    | inr other ↦ ground (arith, get-left id cs c c' d)
  ]

-- The frame that a client gets when there is output.
abbrev pub next_frame : Bytes → Bytes → Client → Frame
next_frame snapshot output c =
    if c.pending_snapshot
    then record { msg_type = Server.state_sync; payload = snapshot }
    else record { msg_type = Server.output; payload = output }

-- What stays of a client's stream: a snapshot takes the place of the queue.
abbrev pub kept : Client → Bytes
kept c = if c.pending_snapshot then c.sent else stream c

queue-stream : (msg : Bytes) (c : Client) → stream (flush_client (queue msg c)).1 ≡ stream c ++ msg
unfolding queue
queue-stream msg c = flush_client-stream (queue msg c) ∙ sym (append_assoc c.sent c.send_buf msg)

broadcast_output-stream :
    (snapshot output : Bytes) (cs : Clients) (id : ℕ) (c c' : Client)
    → Distinct cs
    → get id cs ≡ some c
    → get id (broadcast_output snapshot output cs) ≡ some c'
    → snapshot ≢ []
    → stream c' ≡ kept c ++ encode_all (next_frame snapshot output c ∷ [])
broadcast_output-stream snapshot output cs id c c' d e e' ne =
    let msg = encode Server.output output in
    let same =
      get-left (λ c. c.pending_snapshot) (after_snapshot true snapshot) (queue msg) id cs c c' d e
        (rw (broadcast_output-delivered snapshot output cs d) at e') in
    elim (Bool-cases c.pending_snapshot) [
      | inl p ↦
          simp (p, append-nil)
            (ap stream (simp p at same)
              ∙ flush_client-stream _
              ∙ queue_snapshot-stream true snapshot c ne)
      | inr p ↦ simp (p, append-nil) (ap stream (simp p at same) ∙ queue-stream msg c)
    ]

-- A bridge whose socket gives whole frames without an EXIT, and then no more for now, goes on with
-- the terminal having got what the frames print.
on_socket-prints :
    (chunks : List Bytes) (answers : List Read) (b : Bridge) (fs : List Frame)
    → All (λ chunk. chunk ≢ []) chunks
    → concat chunks ≡ encode_all fs
    → All FitsU32 fs
    → All IsNotExit fs
    → b.recv_buf ≡ []
    → All IsProgress b.stdout_writes
    → length (printed_all false fs) ≤ count_writes b.stdout_writes
    → let r = on_socket (reads chunks (Read.would_block ∷ answers)) b in
      (r.1 ≡ false) × (r.0.stdout ≡ b.stdout ++ printed_all false fs) × (r.0.recv_buf ≡ [])
on_socket-prints chunks answers b fs full e fits n empty p enough =
    let b1 : Bridge = record b { recv_buf = b.recv_buf ++ concat chunks } in
    let received : b1.recv_buf ≡ encode_all fs ++ [] =
      ap (λ buf. buf ++ concat chunks) empty ∙ e ∙ sym (append-nil _) in
    let (w, shown) = print-Written (printed_all false fs) (record b1 { recv_buf = [] }) p enough in
    let whole =
      (on_socket-reads chunks answers b full).0
      ∙ process_socket-prints b1 fs [] fits n (inl (omega arith)) received
      ∙ ap (λ r. (r.1, is_err r.0)) shown in
    (ap (λ r. r.1) whole, ap (λ r. r.0.stdout) whole, ap (λ r. r.0.recv_buf) whole)

next_frame-IsNotExit :
    (snapshot output : Bytes) (c : Client) → IsNotExit (next_frame snapshot output c)
next_frame-IsNotExit snapshot output c = ground arith

All-snoc :
    (fs : List Frame) (f : Frame) → All IsNotExit fs → IsNotExit f → All IsNotExit (fs ++ f ∷ [])
All-snoc [] f h n = (n, tt)
All-snoc (g ∷ fs) f (m, h) n = (m, All-snoc fs f h n)

flush_pty_output-clients :
    (vt : Vt100) (s : Server vt)
    → s.pending_pty_output ≢ []
    → (flush_pty_output vt s).clients
      ≡ broadcast_output (snapshot vt s.session) s.pending_pty_output s.clients
unfolding flush_pty_output
flush_pty_output-clients vt s ne = simp (is_empty-ne s.pending_pty_output ne)

-- Where ids are distinct, output is pending and the snapshot is not empty, take a client that is
-- still there after a flush of the output, of which so far went out, with its queue unless it
-- awaits its snapshot, whole frames without an EXIT; the new frame is OUTPUT with the output, or
-- STATE_SYNC with the snapshot for a client that awaits it, and all payloads fit a u32. A bridge
-- with nothing unread, and a terminal that takes enough, that reads the stream of the client in
-- chunks, up to what is still queued, and then no more for now, goes on, with nothing unread, and
-- its terminal has got just what those frames and the new one print.
pub flush_pty_output-prints :
    (vt : Vt100) (s : Server vt) (id : ℕ) (c c' : Client) (fs : List Frame) (chunks : List Bytes)
    (answers : List Read) (b : Bridge)
    → Distinct s.clients
    → get id s.clients ≡ some c
    → get id (flush_pty_output vt s).clients ≡ some c'
    → s.pending_pty_output ≢ []
    → snapshot vt s.session ≢ []
    → kept c ≡ encode_all fs
    → let all = fs ++ next_frame (snapshot vt s.session) s.pending_pty_output c ∷ [] in
      All FitsU32 all
      → All IsNotExit fs
      → All (λ chunk. chunk ≢ []) chunks
      → concat chunks ≡ stream c'
      → b.recv_buf ≡ []
      → All IsProgress b.stdout_writes
      → length (printed_all false all) ≤ count_writes b.stdout_writes
      → let r = on_socket (reads chunks (Read.would_block ∷ answers)) b in
        (r.1 ≡ false) × (r.0.stdout ≡ b.stdout ++ printed_all false all) × (r.0.recv_buf ≡ [])
flush_pty_output-prints vt s id c c' fs chunks answers b d e e' ne sne framed fits n full got empty
      p enough =
    let frame = next_frame (snapshot vt s.session) s.pending_pty_output c in
    let there = ap (get id) (sym (flush_pty_output-clients vt s ne)) ∙ e' in
    let streamed =
      broadcast_output-stream (snapshot vt s.session) s.pending_pty_output s.clients id c c' d e
        there sne in
    on_socket-prints chunks answers b (fs ++ frame ∷ []) full
      (got
        ∙ streamed
        ∙ ap (λ t. t ++ encode_all (frame ∷ [])) framed
        ∙ sym (encode_all-append fs (frame ∷ [])))
      fits (All-snoc fs frame n (next_frame-IsNotExit _ _ c)) empty p enough
