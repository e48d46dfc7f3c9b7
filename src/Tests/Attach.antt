-- ===== src/Tests/Attach.antt =====
-- src/bridge.rs on concrete frames.
use pterm.Common.{
  All, suc, ℕ, pos, codes, ◌≡◌, refl, inl, true, false, List, [], ◌∷◌, ◌++◌, arith, Bytes, zero,
  none, some,
}
use pterm.Bridge.{
  on_socket, Bridge, process_socket, detach_cleanup_sequences, resize_message, initial_size,
}
use pterm.Bridge.Frames.{exit_frame, printed_all}
use pterm.Proto.Client
use pterm.Bridge.Run.{run, polled, token_socket, code}
use pterm.Bridge.Exit.{run-exit, IsProgress}
use pterm.Io.{Write, Read, got, wrote}
use pterm.Bridge.Reading.{reads, on_socket-reads}
use pterm.Proto.{encode, encode_exit, Frame}
use pterm.Proto.Server
use pterm.Proto.Stream.{encode_all}

abbrev shown : List Frame
shown =
    record { msg_type = Server.state_sync; payload = codes "screen" }
    ∷ record { msg_type = Server.output; payload = codes "out" }
    ∷ []

abbrev late : List Frame
late = record { msg_type = Server.output; payload = codes "late" } ∷ []

abbrev bridge : Bytes → Bridge
bridge recv_buf = record {
  recv_buf = recv_buf;
  exit_code = pos 0;
  stdout_writes = wrote 100 ∷ [];
  stdout = [];
  socket_writes = [];
  socket = [];
}

abbrev ended : Bridge
ended = bridge (encode_all (shown ++ exit_frame (pos 3) ∷ late) ++ [])

abbrev going : Bridge
going = bridge (encode_all shown ++ Server.output ∷ [])

on_socket-reads_example :
    (on_socket (reads (codes "a" ∷ codes "bc" ∷ []) (Read.would_block ∷ [])) going
      ≡ process_socket (record going { recv_buf = going.recv_buf ++ codes "abc" }))
    × (on_socket (reads (codes "a" ∷ codes "bc" ∷ []) (got [] ∷ [])) going
        ≡ (record going { recv_buf = going.recv_buf ++ codes "abc" }, true))
on_socket-reads_example =
    on_socket-reads (codes "a" ∷ codes "bc" ∷ []) [] going ((λ e. cc), ((λ e. cc), tt))

-- A terminal that takes one byte of every write.
abbrev pub byte_writes : ℕ → List Write
byte_writes zero = []
byte_writes (suc n) = wrote 1 ∷ byte_writes n

pub byte_writes-IsProgress : (n : ℕ) → All IsProgress (byte_writes n)
byte_writes-IsProgress zero = tt
byte_writes-IsProgress (suc n) = (omega arith, byte_writes-IsProgress n)

abbrev pub fresh : Bridge
fresh = record (bridge []) { stdout_writes = Write.would_block ∷ byte_writes 200 }

abbrev arrived : Bytes
arrived = encode_all (shown ++ exit_frame (pos 3) ∷ late)

run-exit_example :
    let r =
      run none none
        (some (100, 30))
        (polled (token_socket (reads (arrived ∷ []) (Read.would_block ∷ [])) ∷ []) ∷ [])
        fresh in
    (r.1 ≡ code (pos 3))
    × (r.0.stdout ≡ printed_all false shown ++ detach_cleanup_sequences)
    × (r.0.socket
        ≡ resize_message (initial_size none none (some (100, 30))) ++ encode Client.detach [])
unfolding encode encode_exit
run-exit_example =
    run-exit none none (some (100, 30)) (arrived ∷ []) [] [] [] fresh shown late (pos 3) []
      ((λ e. cc), tt) refl (omega arith) (omega arith) (omega arith) (inl (omega arith)) refl refl
      (tt, byte_writes-IsProgress 200) (omega arith)
