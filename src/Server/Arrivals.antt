-- ===== src/Server/Arrivals.antt =====
-- src/server.rs: what a client types in any number of reads.
use pterm.Common.{
  length, All, length-append, ℕ, ◌≤◌, ◌≡◌, refl, sym, ap, subst, ◌∙◌, ◌≢◌, false, some, List, [],
  ◌∷◌, ◌++◌, append-nil, append_assoc, arith, Bytes,
}
use pterm.Io.{ok, Read, got}
use pterm.Proto.{Frame, decode_frames}
use pterm.Proto.Rest.{decode_frames-IsPartial}
use pterm.Proto.Split.{IsPartial, decode_frames-partial}
use pterm.Proto.Stream.{decode_frames-append}
use pterm.Bridge.Reading.{concat}
use pterm.Server.{Client, Server, get}
use pterm.Server.Handlers.{handle_client_data}
use pterm.Server.Run.{Event, client, on_event, on_events, on_readable, on_writable}
use pterm.Server.Typing.{IsTyping, typed, put_in, keep, handle_client_data-typed, get-modify}
use pterm.Session.Writing.{IsProgress, count_writes}
use pterm.Vt.{Vt100}

-- The events of reads of some bytes each.
abbrev pub arrivals : ℕ → List Bytes → List Event
arrivals id [] = []
arrivals id (chunk ∷ chunks) = client id (some (got chunk)) false ∷ arrivals id chunks

module _ (vt : Vt100) where
  on_events-step :
      (event : Event) (events : List Event) (s s' : Server vt)
      → on_event vt event s ≡ ok s'
      → on_events vt (event ∷ events) s ≡ on_events vt events s'
  unfolding on_events
  on_events-step event events s s' e = rw (e, on_events)

  on_readable-read :
      (id : ℕ) (answer : Read) (s s' : Server vt)
      → handle_client_data vt id answer s ≡ (ok tt, s')
      → on_readable vt id (some answer) s ≡ ok s'
  unfolding on_readable
  on_readable-read id answer s s' e = rw (ap (λ r. r.0) e, ap (λ r. r.1) e, on_readable)

  on_event-read :
      (id : ℕ) (answer : Read) (s s' : Server vt)
      → handle_client_data vt id answer s ≡ (ok tt, s')
      → on_event vt (client id (some answer) false) s ≡ ok s'
  unfolding on_event on_readable on_writable
  on_event-read id answer s s' e = rw (on_readable-read id answer s s' e, on_event)

  typed-append : (fs gs : List Frame) → typed (fs ++ gs) ≡ typed fs ++ typed gs
  typed-append [] gs = refl
  typed-append (f ∷ fs) gs = rw (typed-append fs gs, append_assoc)

  All-parts : (fs gs : List Frame) → All IsTyping (fs ++ gs) → All IsTyping fs × All IsTyping gs
  All-parts [] gs h = (tt, h)
  All-parts (f ∷ fs) gs (n, h) = let (hf, hg) = All-parts fs gs h in ((n, hf), hg)

  -- What the reads of a client lead to.
  pub record Arrived (id : ℕ) (chunks : List Bytes) (s : Server vt) (bytes left : Bytes)
      : Type 0 where
    pub last : Server vt
    pub result : on_events vt (arrivals id chunks) s ≡ ok last
    pub written : last.session.pty.written ≡ s.session.pty.written ++ bytes
    pub kept : (c : Client) × (get id last.clients ≡ some c) × (c.recv_buf ≡ left)

  pub on_events-Arrived :
      (id : ℕ) (c : Client) (chunks : List Bytes) (s : Server vt) (fs : List Frame) (left : Bytes)
      → get id s.clients ≡ some c
      → s.pending_pty_output ≡ []
      → All (λ chunk. chunk ≢ []) chunks
      → IsPartial c.recv_buf
      → decode_frames (c.recv_buf ++ concat chunks) ≡ (fs, left)
      → All IsTyping fs
      → All IsProgress s.session.pty.writes
      → length (typed fs) ≤ count_writes s.session.pty.writes
      → Arrived id chunks s (typed fs) left
  unfolding on_events
  on_events-Arrived id c [] s fs left e quiet full part d h p enough =
      let whole =
        sym (decode_frames-partial c.recv_buf part)
        ∙ ap decode_frames (sym (append-nil c.recv_buf))
        ∙ d in
      record {
        last = s;
        result = refl;
        written =
            sym (append-nil _) ∙ ap (λ fs. s.session.pty.written ++ typed fs) (ap (λ r. r.0) whole);
        kept = (c, e, ap (λ r. r.1) whole);
      }
  on_events-Arrived id c ([] ∷ chunks) s fs left e quiet (ne, full) part d h p enough =
      absurd (ne refl)
  on_events-Arrived id c ((b ∷ bs) ∷ chunks) s fs left e quiet (ne, full) part d h p enough =
      let buf = c.recv_buf ++ b ∷ bs in
      let first = (decode_frames buf).0 in
      let carry = (decode_frames buf).1 in
      let rest = decode_frames (carry ++ concat chunks) in
      let cut : (first ++ rest.0, rest.1) ≡ (fs, left) =
        sym (decode_frames-append buf (concat chunks))
        ∙ ap decode_frames (append_assoc c.recv_buf (b ∷ bs) (concat chunks))
        ∙ d in
      let frames = ap (λ r. r.0) cut in
      let (hf, hr) = All-parts first rest.0 (subst (All IsTyping) (sym frames) h) in
      let parts = typed-append first rest.0 in
      let size = length-append (typed first) (typed rest.0) in
      let all = ap (λ fs. length (typed fs)) frames in
      let (writes, done, t) =
        handle_client_data-typed vt id c b bs s first carry e quiet refl hf p
          (omega (arith, size, all, ap length parts)) in
      let s' = keep vt id carry (put_in vt writes (typed first) s) in
      let c' : Client = record c { recv_buf = carry } in
      let a =
        on_events-Arrived id c' chunks s' rest.0 left
          (get-modify id (λ c. record c { recv_buf = carry }) s.clients c e) quiet full
          (decode_frames-IsPartial buf) (ap (λ l. (rest.0, l)) (ap (λ r. r.1) cut)) hr t.goes_on
          (omega (arith, size, all, ap length parts, t.enough)) in
      record {
        last = a.last;
        result =
            on_events-step (client id (some (got (b ∷ bs))) false) (arrivals id chunks) s s'
              (on_event-read id (got (b ∷ bs)) s s' done)
            ∙ a.result;
        written =
            a.written
            ∙ append_assoc s.session.pty.written (typed first) (typed rest.0)
            ∙ ap (λ bytes. s.session.pty.written ++ bytes) (sym parts ∙ ap typed frames);
        kept = a.kept;
      }
