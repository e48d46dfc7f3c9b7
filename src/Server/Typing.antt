-- ===== src/Server/Typing.antt =====
-- src/server.rs: what a client types, on its way into the PTY.
use pterm.Common.{
  ◌==◌, if◌then◌else◌, Bool-cases, length, All, length-append, last, ℕ, ◌≤◌, ◌≡◌, refl, ap, ◌∙◌,
  ◌≢◌, inl, inr, Bool, false, some, List, [], ◌∷◌, ◌++◌, append-nil, append_assoc, arith, Bytes,
}
use pterm.Io.{ok, got, Write}
use pterm.Proto.Client
use pterm.Proto.{Frame, decode_frames}
use pterm.Server.{Client, Clients, Server, get, modify, is_empty}
use pterm.Server.Broadcast.{flush_pty_output}
use pterm.Server.Clients.{modify-modify}
use pterm.Server.Handlers.{
  process_frame, process_frames, process_client_recv_buf, process_client, received,
  handle_client_data,
}
use pterm.Session.Writing.{IsProgress, count_writes}
use pterm.Session.Taking.{Taken, put, write_pty-put}
use pterm.Vt.{Vt100}

-- A frame of which the daemon does nothing but write an INPUT to the PTY.
abbrev pub IsTyping : Frame → Type 0
IsTyping f = (f.msg_type ≢ Client.resize) × (f.msg_type ≢ Client.redraw)

abbrev pub typed_by : Frame → Bytes
typed_by f = if f.msg_type == Client.input then f.payload else []

abbrev pub typed : List Frame → Bytes
typed [] = []
typed (f ∷ fs) = typed_by f ++ typed fs

pub get-modify :
    (id : ℕ) (f : Client → Client) (cs : Clients) (c : Client)
    → get id cs ≡ some c
    → get id (modify id f cs) ≡ some (f c)
unfolding get modify
get-modify id f [] c h = cc
get-modify id f ((key, k) ∷ cs) c h = elim (Bool-cases (key == id)) [
  | inl e ↦
      let same : k ≡ c = cc (rw (e, get) at h) in rw (e, modify, get, e) (ap (λ c. some (f c)) same)
  | inr e ↦ rw (e, modify, get, e) (get-modify id f cs c (rw (e, get) at h))
]

pub is_empty-append : (xs : Bytes) (b : ℕ) (bs : Bytes) → is_empty (xs ++ b ∷ bs) ≡ false
is_empty-append [] b bs = refl
is_empty-append (x ∷ xs) b bs = refl

module _ (vt : Vt100) where
  abbrev pub put_in : List Write → Bytes → Server vt → Server vt
  put_in rest bytes s = record s { session = put vt rest bytes s.session }

  process_frame-typed :
      (f : Frame) (flush_all : Bool) (s : Server vt)
      → IsTyping f
      → All IsProgress s.session.pty.writes
      → length (typed_by f) ≤ count_writes s.session.pty.writes
      → (rest : List Write) × (process_frame vt f flush_all s
          ≡ (ok flush_all, put_in rest (typed_by f) s))
        × Taken s.session.pty.writes (typed_by f) rest
  unfolding process_frame
  process_frame-typed f flush_all s (n, n') p h = elim (Bool-cases (f.msg_type == Client.input)) [
    | inl i ↦
        let (rest, e, t) = write_pty-put vt f.payload s.session p (simp i at h) in
        simp i (rest, rw e, t)
    | inr i ↦
        let r : (f.msg_type == Client.resize) ≡ false = ground arith in
        let d : (f.msg_type == Client.redraw) ≡ false = ground arith in
        (
          s.session.pty.writes,
          simp (i, r, d, append-nil) refl,
          record { goes_on = p; enough = omega arith },
        )
  ]

  process_frames-step :
      (f : Frame) (fs : List Frame) (flush_all flush_all' : Bool) (s s' : Server vt)
      → process_frame vt f flush_all s ≡ (ok flush_all', s')
      → process_frames vt (f ∷ fs) flush_all s ≡ process_frames vt fs flush_all' s'
  unfolding process_frames
  process_frames-step f fs flush_all flush_all' s s' e =
      rw (ap (λ r. r.0) e, ap (λ r. r.1) e, process_frames)

  process_frames-typed :
      (fs : List Frame) (flush_all : Bool) (s : Server vt)
      → All IsTyping fs
      → All IsProgress s.session.pty.writes
      → length (typed fs) ≤ count_writes s.session.pty.writes
      → (rest : List Write) × (process_frames vt fs flush_all s
          ≡ (ok flush_all, put_in rest (typed fs) s))
        × Taken s.session.pty.writes (typed fs) rest
  unfolding process_frames
  process_frames-typed [] flush_all s h p enough =
      (s.session.pty.writes, simp append-nil refl, record { goes_on = p; enough = omega arith })
  process_frames-typed (f ∷ fs) flush_all s (h, hs) p enough =
      let size = length-append (typed_by f) (typed fs) in
      let (rest, e, t) = process_frame-typed f flush_all s h p (omega (arith, size)) in
      let (last, e', t') =
        process_frames-typed fs flush_all (put_in rest (typed_by f) s) hs t.goes_on
          (omega (arith, size, t.enough)) in
      (
        last,
        process_frames-step f fs flush_all flush_all s (put_in rest (typed_by f) s) e
            ∙ e'
            ∙ ap
                (λ w. (
                  ok flush_all,
                  record s {
                    session = record s.session {
                      pty = record s.session.pty { writes = last; written = w };
                    };
                  },
                ))
                (append_assoc s.session.pty.written (typed_by f) (typed fs)),
        record { goes_on = t'.goes_on; enough = omega (arith, size, t.enough, t'.enough) },
      )

  -- The client that types, and what its buffer keeps.
  abbrev pub keep : ℕ → Bytes → Server vt → Server vt
  keep id rest s = record s { clients = modify id (λ c. record c { recv_buf = rest }) s.clients }

  process_client_recv_buf-typed :
      (id : ℕ) (c : Client) (s : Server vt) (fs : List Frame) (left : Bytes)
      → get id s.clients ≡ some c
      → decode_frames c.recv_buf ≡ (fs, left)
      → All IsTyping fs
      → All IsProgress s.session.pty.writes
      → length (typed fs) ≤ count_writes s.session.pty.writes
      → (rest : List Write) × (process_client_recv_buf vt id s
          ≡ (ok false, keep id left (put_in rest (typed fs) s)))
        × Taken s.session.pty.writes (typed fs) rest
  unfolding process_client_recv_buf
  process_client_recv_buf-typed id c s fs left e d h p enough =
      let emptied : Server vt = record s {
        clients = modify id (λ c. record c { recv_buf = [] }) s.clients;
      } in
      let (rest, done, t) = process_frames-typed fs false emptied h p enough in
      let whole = ap (λ r. process_frames vt r.0 false emptied) d ∙ done in
      let both =
        modify-modify id (λ c. record c { recv_buf = [] }) (λ c. record c { recv_buf = left })
          s.clients in
      (
        rest,
        rw (e, ap (λ r. r.0) whole, ap (λ r. r.1) whole, process_client_recv_buf)
            (ap (λ r. (ok false, keep id r.1 (put_in rest (typed fs) emptied))) d
              ∙ ap (λ cs. (ok false, record (put_in rest (typed fs) s) { clients = cs })) both),
        t,
      )

  pub flush_pty_output-quiet :
      (s : Server vt) → s.pending_pty_output ≡ [] → flush_pty_output vt s ≡ s
  unfolding flush_pty_output
  flush_pty_output-quiet s quiet = simp quiet

  process_client-typed :
      (id : ℕ) (c : Client) (s : Server vt) (fs : List Frame) (left : Bytes)
      → get id s.clients ≡ some c
      → s.pending_pty_output ≡ []
      → decode_frames c.recv_buf ≡ (fs, left)
      → All IsTyping fs
      → All IsProgress s.session.pty.writes
      → length (typed fs) ≤ count_writes s.session.pty.writes
      → (rest : List Write) × (process_client vt id s
          ≡ (ok tt, keep id left (put_in rest (typed fs) s)))
        × Taken s.session.pty.writes (typed fs) rest
  unfolding process_client
  process_client-typed id c s fs left e quiet d h p enough =
      let (rest, done, t) = process_client_recv_buf-typed id c s fs left e d h p enough in
      let same = ap (process_client_recv_buf vt id) (flush_pty_output-quiet s quiet) ∙ done in
      (rest, rw (ap (λ r. r.0) same, ap (λ r. r.1) same, process_client), t)

  -- A read of some bytes whose frames are all typing, while no output is pending.
  pub handle_client_data-typed :
      (id : ℕ) (c : Client) (b : ℕ) (bs : Bytes) (s : Server vt) (fs : List Frame) (left : Bytes)
      → get id s.clients ≡ some c
      → s.pending_pty_output ≡ []
      → decode_frames (c.recv_buf ++ b ∷ bs) ≡ (fs, left)
      → All IsTyping fs
      → All IsProgress s.session.pty.writes
      → length (typed fs) ≤ count_writes s.session.pty.writes
      → (rest : List Write) × (handle_client_data vt id (got (b ∷ bs)) s
          ≡ (ok tt, keep id left (put_in rest (typed fs) s)))
        × Taken s.session.pty.writes (typed fs) rest
  unfolding handle_client_data received
  handle_client_data-typed id c b bs s fs left e quiet d h p enough =
      let grown : Server vt = record s {
        clients = modify id (λ c. record c { recv_buf = c.recv_buf ++ b ∷ bs }) s.clients;
      } in
      let c' : Client = record c { recv_buf = c.recv_buf ++ b ∷ bs } in
      let there = get-modify id (λ c. record c { recv_buf = c.recv_buf ++ b ∷ bs }) s.clients c e in
      let (rest, done, t) = process_client-typed id c' grown fs left there quiet d h p enough in
      let both =
        modify-modify id (λ c. record c { recv_buf = c.recv_buf ++ b ∷ bs })
          (λ c. record c { recv_buf = left }) s.clients in
      let full = is_empty-append c.recv_buf b bs in
      (
        rest,
        rw (e, there, full, handle_client_data, received)
            (done ∙ ap (λ cs. (ok tt, record (put_in rest (typed fs) s) { clients = cs })) both),
        t,
      )
