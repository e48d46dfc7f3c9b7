-- ===== src/System/Typing.antt =====
-- src/bridge.rs and src/server.rs at the two ends of a socket: what is typed at a terminal reaches the PTY.
use pterm.Common.{
  length, All, ℕ, ◌^◌, ◌≤◌, ◌<◌, ◌≡◌, refl, sym, ap, subst, ◌∙◌, ◌≢◌, inl, false, some, List, [],
  ◌∷◌, ◌++◌, append-nil, append_assoc, arith, Bytes,
}
use pterm.Bridge.{Bridge, on_stdin}
use pterm.Bridge.Reading.{reads, concat}
use pterm.Bridge.Exit.{send-all}
use pterm.Io.{Read}
use pterm.Proto.Client
use pterm.Proto.{Frame, encode, decode_frames}
use pterm.Proto.Stream.{FitsU32, encode_all, decode_frames-encode_all}
use pterm.Server.{Client, Server, get}
use pterm.Server.Arrivals.{Arrived, on_events-Arrived}
use pterm.Server.Typing.{IsTyping, typed}
use pterm.Session.Writing.{IsProgress, count_writes}
use pterm.Vt.{Vt100}

abbrev pub inputs : List Bytes → List Frame
inputs [] = []
inputs (chunk ∷ chunks) = record { msg_type = Client.input; payload = chunk } ∷ inputs chunks

-- Each read of the terminal goes out as an INPUT.
on_stdin-inputs :
    (chunks : List Bytes) (answers : List Read) (b : Bridge)
    → b.socket_writes ≡ []
    → All (λ chunk. chunk ≢ []) chunks
    → on_stdin (reads chunks (Read.would_block ∷ answers)) b
      ≡ (record b { socket = b.socket ++ encode_all (inputs chunks) }, false)
unfolding on_stdin
on_stdin-inputs [] answers b s h = rw append-nil
on_stdin-inputs ([] ∷ chunks) answers b s (n, h) = absurd (n refl)
on_stdin-inputs ((x ∷ xs) ∷ chunks) answers b s (n, h) =
    let b' : Bridge = record b { socket = b.socket ++ encode Client.input (x ∷ xs) } in
    let done = send-all (encode Client.input (x ∷ xs)) b s in
    rw (ap (λ r. r.0) done, ap (λ r. r.1) done)
      (on_stdin-inputs chunks answers b' s h ∙ rw append_assoc)

append_cancel : (xs ys zs : Bytes) → xs ++ ys ≡ xs ++ zs → ys ≡ zs
append_cancel [] ys zs h = h
append_cancel (x ∷ xs) ys zs h = append_cancel xs ys zs (cc)

typed-inputs : (chunks : List Bytes) → typed (inputs chunks) ≡ concat chunks
typed-inputs [] = refl
typed-inputs (chunk ∷ chunks) = ap (λ bytes. chunk ++ bytes) (typed-inputs chunks)

inputs-IsTyping : (chunks : List Bytes) → All IsTyping (inputs chunks)
inputs-IsTyping [] = tt
inputs-IsTyping (chunk ∷ chunks) = ((omega arith, omega arith), inputs-IsTyping chunks)

inputs-FitsU32 :
    (chunks : List Bytes)
    → All (λ chunk. length chunk < 2 ^ 32) chunks
    → All FitsU32 (inputs chunks)
inputs-FitsU32 [] h = tt
inputs-FitsU32 (chunk ∷ chunks) (h, hs) = (h, inputs-FitsU32 chunks hs)

-- Where reads of the terminal give chunks of some bytes that fit a u32, and then no more for now,
-- the socket takes all, the client on the other end has nothing left unread, no output is pending,
-- and enough writes to the PTY take at least a byte and none fails: however the bytes that the
-- bridge sends are cut into reads of the daemon, the bridge goes on, the handling of those reads
-- succeeds, and the PTY has received the chunks whole, once and in order behind what it had.
pub on_stdin-Arrived :
    (vt : Vt100) (chunks pieces : List Bytes) (answers : List Read) (b : Bridge) (s : Server vt)
    (id : ℕ) (c : Client)
    → All (λ chunk. chunk ≢ []) chunks
    → All (λ chunk. length chunk < 2 ^ 32) chunks
    → b.socket_writes ≡ []
    → get id s.clients ≡ some c
    → c.recv_buf ≡ []
    → s.pending_pty_output ≡ []
    → All IsProgress s.session.pty.writes
    → length (concat chunks) ≤ count_writes s.session.pty.writes
    → All (λ piece. piece ≢ []) pieces
    → let r = on_stdin (reads chunks (Read.would_block ∷ answers)) b in
      r.0.socket ≡ b.socket ++ concat pieces
      → (r.1 ≡ false) × Arrived vt id pieces s (concat chunks) []
on_stdin-Arrived vt chunks pieces answers b s id c full fits w e empty quiet p enough cut same =
    let sent = on_stdin-inputs chunks answers b w full in
    let bytes =
      append_cancel b.socket (concat pieces) (encode_all (inputs chunks))
        (sym same ∙ ap (λ r. r.0.socket) sent) in
    let total = typed-inputs chunks in
    let decoded =
      ap (λ buf. decode_frames (buf ++ concat pieces)) empty
      ∙ ap decode_frames (bytes ∙ sym (append-nil _))
      ∙ decode_frames-encode_all (inputs chunks) [] (inputs-FitsU32 chunks fits)
          (inl (omega arith)) in
    let a =
      on_events-Arrived vt id c pieces s (inputs chunks) [] e quiet cut
        (rw empty (inl (omega arith))) decoded (inputs-IsTyping chunks) p
        (omega (arith, enough, ap length total)) in
    (ap (λ r. r.1) sent, subst (λ bytes. Arrived vt id pieces s bytes []) total a)
