-- ===== src/Bridge.antt =====
-- src/bridge.rs: the process that connects a client's terminal to a daemon's socket. The terminal and the
-- socket are what they answer and what has been written to them.
pub mod Frames
pub mod Reading
pub mod Run
pub mod Terminal
pub mod Restoring
pub mod Settling
pub mod Wake
pub mod Sizes
pub mod Exit
use pterm.Common.{
  ltb, leb, ◌==◌, if◌then◌else◌, ltb→lt, lt→ltb, leb→le, le→leb, lt→leb, ==_iff, Bool-cases,
  Option-cases, is_byte, is_none, length, get_or, take, drop, All, length-append, take-append-drop,
  length-take, length-drop, take-length-append, drop-length-append, take-append_le, drop-append_le,
  drop-drop, ℤ, pos, negsuc, codes, equal_iff, last, equal, starts_with, ends_with, last_part,
  pop_back-concat, to_string, pop_back, bit_and, bit_or, ℕ, zero, suc, ◌+◌, ◌-◌, ◌*◌, ◌/◌, ◌%◌, ◌^◌,
  ◌≤◌, ◌<◌, ◌≡◌, refl, sym, ap, ap₂, subst, ◌∙◌, ◌≢◌, ◌↔◌, ◌⊎◌, inl, inr, Bool, true, false, not,
  ◌&&◌, ◌||◌, Option, none, some, List, [], ◌∷◌, ◌++◌, append-nil, append_assoc, arith, Bytes,
}
use pterm.Io.{Io, ok, err, other, waiting, Write, wrote, interrupted, Read, got}
use pterm.Kitty.{csi}
use pterm.Proto.{Frame, Parsed, encode, encode_resize, parse_exit, decode_frames}
use pterm.Proto.Client
use pterm.Proto.Server
use pterm.Session.{Written, default_terminal_cols, default_terminal_rows}

abbrev pub detach_cleanup_sequences : Bytes
detach_cleanup_sequences =
    csi "?1000l"
    ++ (csi "?1002l"
        ++ (csi "?1003l"
            ++ (csi "?1004l"
                ++ (csi "?1006l"
                    ++ (csi "?2004l"
                        ++ (csi "?2026l"
                            ++ (csi "?1049l"
                                ++ (csi "?69l"
                                    ++ (csi "0 q"
                                        ++ (csi "?25h"
                                            ++ (csi ">4n" ++ (csi "<u" ++ csi "=0u"))))))))))))

abbrev pub state_sync_keyboard_cleanup_sequences : Bytes
state_sync_keyboard_cleanup_sequences = csi "<u" ++ csi "=0u"

-- `socket_writes` says of each `write_all` on the socket how many bytes it wrote before it failed, or
-- `none` where it succeeded; with no answer left it succeeds.
pub record Bridge : Type 0 where
  pub recv_buf : Bytes
  pub exit_code : ℤ
  pub stdout_writes : List Write
  pub stdout : Bytes
  pub socket_writes : List (Option ℕ)
  pub socket : Bytes

-- The loop of `write_all_raw`. It goes on after a write of no byte; EINTR is an error.
unfoldable pub write_all_raw : List Write → Bytes → Bytes → Written
write_all_raw writes [] written = record { result = ok tt; writes = writes; written = written }
write_all_raw [] (b ∷ bs) written = record { result = waiting; writes = []; written = written }
write_all_raw (wrote n ∷ writes) (b ∷ bs) written =
    write_all_raw writes (drop n (b ∷ bs)) (written ++ take n (b ∷ bs))
write_all_raw (Write.would_block ∷ writes) (b ∷ bs) written = write_all_raw writes (b ∷ bs) written
write_all_raw (_ ∷ writes) (b ∷ bs) written = record {
  result = err other;
  writes = writes;
  written = written;
}

-- `write_all_raw` on the terminal. Where the answers run out before the bytes, the result is `waiting`
-- and the callers go on with what has been written.
unfoldable pub print : Bytes → Bridge → Io (Unit {0}) × Bridge
unfolding write_all_raw
print bytes b =
    let w = write_all_raw b.stdout_writes bytes b.stdout in
    (w.result, record b { stdout_writes = w.writes; stdout = w.written })

-- `socket.write_all(&msg)`, and whether it succeeds.
unfoldable pub send : Bytes → Bridge → Bool × Bridge
send msg b = elim b.socket_writes [
  | [] ↦ (true, record b { socket = b.socket ++ msg })
  | none ∷ rest ↦ (true, record b { socket_writes = rest; socket = b.socket ++ msg })
  | some n ∷ rest ↦ (false, record b { socket_writes = rest; socket = b.socket ++ take n msg })
]

-- The size for the first RESIZE: the caller's, else the terminal's, else the default.
unfoldable pub initial_size : Option ℕ → Option ℕ → Option (ℕ × ℕ) → ℕ × ℕ
initial_size (some cols) (some rows) winsize = (cols, rows)
initial_size (some cols) none none = (cols, default_terminal_rows)
initial_size (some cols) none (some (c, r)) = (cols, r)
initial_size none (some rows) none = (default_terminal_cols, rows)
initial_size none (some rows) (some (c, r)) = (c, rows)
initial_size none none none = (default_terminal_cols, default_terminal_rows)
initial_size none none (some (c, r)) = (c, r)

unfoldable pub resize_message : ℕ × ℕ → Bytes
resize_message size = encode Client.resize (encode_resize size.0 size.1)

-- What the loop over the frames has come to. It ends early at an EXIT.
pub record Batch : Type 0 where
  pub output_batch : Bytes
  pub cleanup_queued : Bool
  pub exit_code : ℤ
  pub exited : Bool

unfoldable pub exit_code_of : Parsed ℤ → ℤ → ℤ
exit_code_of (Parsed.ok code) exit_code = code
exit_code_of (Parsed.err e) exit_code = exit_code

unfoldable pub batch_frames : List Frame → Batch → Batch
unfolding exit_code_of
batch_frames [] b = b
batch_frames (frame ∷ frames) b =
    let sync =
      if b.cleanup_queued
      then b.output_batch
      else b.output_batch ++ state_sync_keyboard_cleanup_sequences in
    elim (frame.msg_type == Server.output) [
      | true ↦ batch_frames frames (record b { output_batch = b.output_batch ++ frame.payload })
      | false ↦ elim (frame.msg_type == Server.state_sync) [
        | true ↦
            batch_frames frames
              (record b { output_batch = sync ++ frame.payload; cleanup_queued = true })
        | false ↦ elim (frame.msg_type == Server.exit) [
          | true ↦ record b {
            exit_code = exit_code_of (parse_exit frame.payload) b.exit_code;
            exited = true;
          }
          | false ↦ batch_frames frames b
        ]
      ]
    ]

-- The loop that reads the socket: the bytes received, and whether the main loop is to end.
unfoldable pub read_socket : List Read → Bytes → Bytes × Bool
read_socket [] recv_buf = (recv_buf, false)
read_socket (got [] ∷ answers) recv_buf = (recv_buf, true)
read_socket (got (b ∷ bs) ∷ answers) recv_buf = read_socket answers (recv_buf ++ b ∷ bs)
read_socket (Read.would_block ∷ answers) recv_buf = (recv_buf, false)
read_socket (Read.failed ∷ answers) recv_buf = (recv_buf, true)

abbrev pub is_empty : Bytes → Bool
is_empty [] = true
is_empty (b ∷ bs) = false

abbrev pub is_err : Io (Unit {0}) → Bool
is_err (err _) = true
is_err _ = false

-- The frames of `recv_buf`: the bridge, and whether the main loop is to end.
unfoldable pub process_socket : Bridge → Bridge × Bool
unfolding batch_frames
process_socket b =
    let (frames, rest) = decode_frames b.recv_buf in
    let start : Batch = record {
      output_batch = [];
      cleanup_queued = false;
      exit_code = b.exit_code;
      exited = false;
    } in
    let batch = batch_frames frames start in
    let b' = record b { recv_buf = rest; exit_code = batch.exit_code } in
    let printed = print batch.output_batch b' in
    if is_empty batch.output_batch
    then (b', batch.exited)
    else (printed.1, batch.exited || is_err printed.0)

-- TOKEN_SOCKET
unfoldable pub on_socket : List Read → Bridge → Bridge × Bool
unfolding read_socket process_socket
on_socket answers b =
    let (recv_buf, stop) = read_socket answers b.recv_buf in
    let b' = record b { recv_buf = recv_buf } in if stop then (b', true) else process_socket b'

-- TOKEN_STDIN
unfoldable pub on_stdin : List Read → Bridge → Bridge × Bool
unfolding send
on_stdin [] b = (b, false)
on_stdin (got [] ∷ answers) b = ((send (encode Client.detach []) b).1, true)
on_stdin (got (c ∷ cs) ∷ answers) b =
    let (sent, b') = send (encode Client.input (c ∷ cs)) b in
    let rest = on_stdin answers b' in if sent then rest else (b', true)
on_stdin (Read.would_block ∷ answers) b = (b, false)
on_stdin (Read.failed ∷ answers) b = (b, true)

-- TOKEN_WAKE, where `winsize` is the terminal's size if it can be read.
unfoldable pub on_wake : Bool → Option (ℕ × ℕ) → Bridge → Bridge
unfolding send resize_message
on_wake sigwinch_received none b = b
on_wake sigwinch_received (some size) b =
    if sigwinch_received then (send (resize_message size) b).1 else b

-- What follows the main loop.
unfoldable pub finish : Bridge → Bridge
unfolding send print
finish b = (print detach_cleanup_sequences (send (encode Client.detach []) b).1).1
