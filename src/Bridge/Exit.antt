-- ===== src/Bridge/Exit.antt =====
-- src/bridge.rs: the bytes that the terminal gets, and a run that ends with an EXIT.
use pterm.Proto.Split.{IsPartial}
use pterm.Proto.Words.{IsI32}
use pterm.Bridge.Frames.{process_socket-exit, printed_all, IsNotExit, exit_frame}
use pterm.Proto.Stream.{FitsU32, encode_all}
use pterm.Proto.{Frame, encode}
use pterm.Common.{
  false, true, ◌≢◌, ℤ, Option, ap, length, take, drop, All, take-append-drop, length-drop, ℕ, suc,
  ◌+◌, ◌≤◌, ◌<◌, ◌≡◌, refl, ◌∙◌, List, [], ◌∷◌, ◌++◌, append-nil, append_assoc, arith, Bytes,
}
use pterm.Io.{Read, ok, Write, wrote}
use pterm.Bridge.{
  on_socket, initial_size, resize_message, Frame, Read, encode, detach_cleanup_sequences, send,
  Bridge, finish, print, write_all_raw,
}
use pterm.Proto.Client
use pterm.Bridge.Reading.{concat, reads, on_socket-reads}
use pterm.Bridge.Run.{
  left, run, main_loop, on_events, on_event, ends, polled, token_socket, Event, Round, code,
}

-- An answer that writes at least one byte, or that is tried again.
abbrev pub IsProgress : Write → Type 0
IsProgress (wrote n) = 0 < n
IsProgress Write.would_block = Unit
IsProgress _ = ⊥

abbrev pub count_writes : List Write → ℕ
count_writes [] = 0
count_writes (wrote n ∷ writes) = suc (count_writes writes)
count_writes (_ ∷ writes) = count_writes writes

-- What is left of the answers goes on, and is enough for what is left of the bytes.
pub record Written (writes : List Write) (bytes written : Bytes) : Type 0 where
  pub rest : List Write
  pub result :
      write_all_raw writes bytes written
      ≡ record { result = ok tt; writes = rest; written = written ++ bytes }
  pub goes_on : All IsProgress rest
  pub enough : count_writes writes ≤ count_writes rest + length bytes

pub write_all_raw-Written :
    (writes : List Write) (bytes written : Bytes)
    → All IsProgress writes
    → length bytes ≤ count_writes writes
    → Written writes bytes written
unfolding write_all_raw
write_all_raw-Written writes [] written p h = record {
  rest = writes;
  result = rw append-nil;
  goes_on = p;
  enough = omega arith;
}
write_all_raw-Written [] (b ∷ bs) written p h = absurd (omega arith)
write_all_raw-Written (Write.would_block ∷ writes) (b ∷ bs) written (q, p) h =
    let w = write_all_raw-Written writes (b ∷ bs) written p h in
    record { rest = w.rest; result = w.result; goes_on = w.goes_on; enough = w.enough }
write_all_raw-Written (wrote n ∷ writes) (b ∷ bs) written (q, p) h =
    let size = length-drop n (b ∷ bs) in
    let w =
      write_all_raw-Written writes (drop n (b ∷ bs)) (written ++ take n (b ∷ bs)) p
        (omega (arith, size)) in
    record {
      rest = w.rest;
      result = w.result ∙ rw (append_assoc, take-append-drop n (b ∷ bs));
      goes_on = w.goes_on;
      enough = omega (arith, size, w.enough);
    }
write_all_raw-Written (Write.interrupted ∷ writes) (b ∷ bs) written (q, p) h = absurd q
write_all_raw-Written (Write.failed ∷ writes) (b ∷ bs) written (q, p) h = absurd q

pub print-Written :
    (bytes : Bytes) (b : Bridge)
    → All IsProgress b.stdout_writes
    → length bytes ≤ count_writes b.stdout_writes
    → (w : Written b.stdout_writes bytes b.stdout) × (print bytes b
        ≡ (ok tt, record b { stdout_writes = w.rest; stdout = b.stdout ++ bytes }))
unfolding print
print-Written bytes b p h =
    let w = write_all_raw-Written b.stdout_writes bytes b.stdout p h in
    (w, ap (λ r. (r.result, record b { stdout_writes = r.writes; stdout = r.written })) w.result)

pub send-all :
    (msg : Bytes) (b : Bridge)
    → b.socket_writes ≡ []
    → send msg b ≡ (true, record b { socket = b.socket ++ msg })
unfolding send
send-all msg b s = ground arith

-- What `finish` leaves, where the terminal takes the clean-up.
finish-cleanup :
    (b : Bridge)
    → b.socket_writes ≡ []
    → All IsProgress b.stdout_writes
    → length detach_cleanup_sequences ≤ count_writes b.stdout_writes
    → ((finish b).stdout ≡ b.stdout ++ detach_cleanup_sequences)
      × ((finish b).socket ≡ b.socket ++ encode Client.detach [])
unfolding finish
finish-cleanup b s p h =
    let b' : Bridge = record b { socket = b.socket ++ encode Client.detach [] } in
    let (w, e) = print-Written detach_cleanup_sequences b' p h in
    let sent = send-all (encode Client.detach []) b s in
    let whole : finish b
        ≡ record b' { stdout_writes = w.rest; stdout = b.stdout ++ detach_cleanup_sequences } =
      ap (λ r. (print detach_cleanup_sequences r.1).1) sent ∙ ap (λ r. r.1) e in
    (ap (λ r. r.stdout) whole, ap (λ r. r.socket) whole)

on_events-leaves :
    (event : Event) (events : List Event) (b b' : Bridge)
    → on_event event b ≡ (b', true)
    → on_events (event ∷ events) b ≡ (b', true)
unfolding on_events
on_events-leaves event events b b' e = rw e

main_loop-leaves :
    (events : List Event) (rounds : List Round) (b b' : Bridge)
    → on_events events b ≡ (b', true)
    → main_loop (polled events ∷ rounds) b ≡ (b', left)
unfolding main_loop
main_loop-leaves events rounds b b' e = rw e

run-sent :
    (cols rows : Option ℕ) (winsize : Option (ℕ × ℕ)) (rounds : List Round) (b b' : Bridge)
    → send (resize_message (initial_size cols rows winsize)) b ≡ (true, b')
    → run cols rows winsize rounds b ≡ ends (main_loop rounds b')
unfolding run
run-sent cols rows winsize rounds b b' e = rw e

on_event-socket :
    (answers : List Read) (b : Bridge) → on_event (token_socket answers) b ≡ on_socket answers b
unfolding on_event
on_event-socket answers b = refl

-- Where the first poll finds the socket readable, and its reads, which end for now, give frames
-- without an EXIT, the EXIT of an i32 code, any frames behind it and a partial frame, all with
-- payloads that fit a u32; where nothing was left unread, the socket takes all, and each write to
-- the terminal is tried again or takes a byte, often enough: run returns that code, whatever comes
-- after; the terminal has what the frames before the EXIT give and then the clean-up, and the
-- socket has the first RESIZE and then a DETACH.
pub run-exit :
    (cols rows : Option ℕ) (winsize : Option (ℕ × ℕ)) (chunks : List Bytes) (answers : List Read)
    (events : List Event) (rounds : List Round) (b : Bridge) (fs after : List Frame) (c : ℤ)
    (tail : Bytes)
    → All (λ chunk. chunk ≢ []) chunks
    → concat chunks ≡ encode_all (fs ++ exit_frame c ∷ after) ++ tail
    → IsI32 c
    → All FitsU32 (fs ++ exit_frame c ∷ after)
    → All IsNotExit fs
    → IsPartial tail
    → b.recv_buf ≡ []
    → b.socket_writes ≡ []
    → All IsProgress b.stdout_writes
    → length (printed_all false fs) + length detach_cleanup_sequences ≤ count_writes b.stdout_writes
    → let resize = resize_message (initial_size cols rows winsize) in
      let socket_event = token_socket (reads chunks (Read.would_block ∷ answers)) in
      let r = run cols rows winsize (polled (socket_event ∷ events) ∷ rounds) b in
      (r.1 ≡ code c)
      × (r.0.stdout ≡ b.stdout ++ (printed_all false fs ++ detach_cleanup_sequences))
      × (r.0.socket ≡ b.socket ++ (resize ++ encode Client.detach []))
run-exit cols rows winsize chunks answers events rounds b fs after c tail h e i u n t empty s p
      enough =
    let resize = resize_message (initial_size cols rows winsize) in
    let out = printed_all false fs in
    let b1 : Bridge = record b { socket = b.socket ++ resize } in
    let received : b1.recv_buf ++ concat chunks ≡ encode_all (fs ++ exit_frame c ∷ after) ++ tail =
      ap (λ buf. buf ++ concat chunks) empty ∙ e in
    let read = (on_socket-reads chunks answers b1 h).0 in
    let processed =
      process_socket-exit (record b1 { recv_buf = b1.recv_buf ++ concat chunks }) fs after c tail i
        u n t received in
    let b2 : Bridge = record b1 { recv_buf = tail; exit_code = c } in
    let (w, printed) = print-Written out b2 p (omega arith) in
    let b3 : Bridge = record b2 { stdout_writes = w.rest; stdout = b.stdout ++ out } in
    let step = read ∙ processed ∙ ap (λ r. (r.1, true)) printed in
    let done = finish-cleanup b3 s w.goes_on (omega (arith, w.enough)) in
    let leaves =
      on_events-leaves (token_socket (reads chunks (Read.would_block ∷ answers))) events b1 b3
        (on_event-socket (reads chunks (Read.would_block ∷ answers)) b1 ∙ step) in
    let ended =
      main_loop-leaves (token_socket (reads chunks (Read.would_block ∷ answers)) ∷ events) rounds b1
        b3 leaves in
    let whole =
      run-sent cols rows winsize
        (polled (token_socket (reads chunks (Read.would_block ∷ answers)) ∷ events) ∷ rounds) b b1
        (send-all resize b s)
      ∙ ap ends ended in
    (
      ap (λ r. r.1) whole,
      ap (λ r. r.0.stdout) whole ∙ done.0 ∙ append_assoc b.stdout out detach_cleanup_sequences,
      ap (λ r. r.0.socket) whole ∙ done.1 ∙ append_assoc b.socket resize (encode Client.detach []),
    )
