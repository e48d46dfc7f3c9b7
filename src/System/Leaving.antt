-- ===== src/System/Leaving.antt =====
-- src/server.rs and src/bridge.rs together: what a bridge returns when the child has exited.
use pterm.Common.{
  length, All, ℤ, ℕ, ◌+◌, ◌≤◌, ◌≡◌, sym, ap, ◌∙◌, ◌≢◌, inl, false, Option, some, List, [], ◌∷◌,
  ◌++◌, append-nil, arith, Bytes,
}
use pterm.Bridge.{Bridge, detach_cleanup_sequences}
use pterm.Bridge.Exit.{IsProgress, count_writes, run-exit}
use pterm.Bridge.Frames.{printed_all, IsNotExit, exit_frame}
use pterm.Bridge.Run.{polled, token_socket, code}
use pterm.Bridge.Run
use pterm.Bridge
use pterm.Bridge.Reading.{concat, reads}
use pterm.Io.{Read, ok}
use pterm.Proto.{encode, encode_exit, Frame}
use pterm.Proto.Server
use pterm.Proto.Stream.{FitsU32, encode_all}
use pterm.Proto.Words.{IsI32}
use pterm.Session.{WaitStatus, check_exit}
use pterm.Vt.{Vt100}
use pterm.Server.{Server, Client, get}
use pterm.Server.Broadcast.{queue}
use pterm.Server.Exit.{no_client, exit_clients-delivered}
use pterm.Server.Framing.{stream}
use pterm.Server.Sound.{IsSound, on_events-IsSound}
use pterm.System.Serve.{serve, serve-IsSound}
use pterm.Pty.{Os, Pty, Files}
use pterm.Commands.{World, Start}
use pterm.Commands.Daemon.{Listening}
use pterm.Server.Run.{Round, Event, on_events, end_of_round, reap}
use pterm.System.{get-left, left, queue-stream, encode_all-append}

-- What the end of a round makes of the clients when the child has just exited and nothing waits.
end_of_round-clients :
    (vt : Vt100) (status : WaitStatus) (exit_code : ℤ) (s : Server vt)
    → IsSound vt s
    → s.exit_sent ≡ false
    → (check_exit vt status s.session).0 ≡ some exit_code
    → (end_of_round vt status s).0.clients
      ≡ left no_client (λ c. c) (queue (encode Server.exit (encode_exit exit_code))) s.clients
unfolding end_of_round reap
end_of_round-clients vt status exit_code s i unsent e =
    let s' : Server vt = record s { session = (check_exit vt status s.session).1 } in
    let told = (exit_clients-delivered vt exit_code s' i.ids.distinct).0 in
    simp unsent (rw (e, reap) (told ∙ simp i.quiet))

-- The stream of a client that has been told of the exit.
end_of_round-stream :
    (vt : Vt100) (status : WaitStatus) (exit_code : ℤ) (s : Server vt) (id : ℕ) (c c' : Client)
    → IsSound vt s
    → s.exit_sent ≡ false
    → (check_exit vt status s.session).0 ≡ some exit_code
    → get id s.clients ≡ some c
    → get id (end_of_round vt status s).0.clients ≡ some c'
    → stream c' ≡ stream c ++ encode_all (exit_frame exit_code ∷ [])
end_of_round-stream vt status exit_code s id c c' i unsent e there there' =
    let msg = encode Server.exit (encode_exit exit_code) in
    let same =
      get-left no_client (λ c. c) (queue msg) id s.clients c c' i.ids.distinct there
        (ap (get id) (sym (end_of_round-clients vt status exit_code s i unsent e)) ∙ there') in
    ap stream same ∙ queue-stream msg c ∙ ap (λ t. stream c ++ t) (sym (append-nil msg))

module _ (vt : Vt100) (os : Os) (net : Listening) (pty : Pty) (files : Files) (world : World)
    (start : Start) (before : List Round) (now : List Event) (status : WaitStatus) where
  -- Take a daemon that goes on after some rounds from its start, and has handled the events of the
  -- next one without having sent an EXIT, where waitpid then gives an i32 as the exit code; and a
  -- client that is still there at the end of that round, of which before it, sent or queued, the
  -- stream was whole frames without an EXIT; all payloads fit a u32. A bridge with nothing unread,
  -- whose socket takes all and whose terminal takes enough, that reads the stream of the client in
  -- chunks in its first round, up to what is still queued, and then no more for now, returns that
  -- code, and its terminal has got just what those frames print, and then the clean-up.
  pub end_of_round-code :
      (s0 s : Server vt) (exit_code : ℤ) (id : ℕ) (c c' : Client) (fs : List Frame)
      (cols rows : Option ℕ) (winsize : Option (ℕ × ℕ)) (chunks : List Bytes) (answers : List Read)
      (events : List Bridge.Run.Event) (rounds : List Bridge.Run.Round) (b : Bridge)
      → serve vt os net pty files world start before ≡ ok (s0, false)
      → on_events vt now s0 ≡ ok s
      → s.exit_sent ≡ false
      → (check_exit vt status s.session).0 ≡ some exit_code
      → IsI32 exit_code
      → get id s.clients ≡ some c
      → get id (end_of_round vt status s).0.clients ≡ some c'
      → stream c ≡ encode_all fs
      → All FitsU32 (fs ++ exit_frame exit_code ∷ [])
      → All IsNotExit fs
      → All (λ chunk. chunk ≢ []) chunks
      → concat chunks ≡ stream c'
      → b.recv_buf ≡ []
      → b.socket_writes ≡ []
      → All IsProgress b.stdout_writes
      → length (printed_all false fs) + length detach_cleanup_sequences
        ≤ count_writes b.stdout_writes
      → let socket_event = token_socket (reads chunks (Read.would_block ∷ answers)) in
        let r = Bridge.Run.run cols rows winsize (polled (socket_event ∷ events) ∷ rounds) b in
        (r.1 ≡ code exit_code)
        × (r.0.stdout ≡ b.stdout ++ (printed_all false fs ++ detach_cleanup_sequences))
  end_of_round-code s0 s exit_code id c c' fs cols rows winsize chunks answers events rounds b
        served handled unsent e i there there' framed fits n full got empty sw p enough =
      let sound =
        on_events-IsSound vt now s0 s
          (serve-IsSound vt os net pty files world start before s0 false served) handled in
      let sent =
        got
        ∙ end_of_round-stream vt status exit_code s id c c' sound unsent e there there'
        ∙ ap (λ t. t ++ encode_all (exit_frame exit_code ∷ [])) framed
        ∙ sym (encode_all-append fs (exit_frame exit_code ∷ []))
        ∙ sym (append-nil _) in
      let r =
        run-exit cols rows winsize chunks answers events rounds b fs [] exit_code [] full sent i
          fits n (inl (omega arith)) empty sw p enough in
      (r.0, r.1)
