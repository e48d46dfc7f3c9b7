-- ===== src/Tests/Clients.antt =====
-- src/server.rs, the daemon's clients on concrete input.
use pterm.Common.{
  take, drop, codes, ◌≡◌, refl, Bool, true, false, List, [], ◌∷◌, ◌++◌, arith, Bytes,
}
use mathlib.Core.List.{Perm, Permᴰ}
use pterm.Server.Order.{broadcast_output-Perm}
use pterm.Io.{Write, wrote}
use pterm.Proto.{Frame, encode, decode_frames}
use pterm.Proto.Server
use pterm.Server.{Client, Clients}
use pterm.Server.Broadcast.{queue_snapshot, queue, broadcast_output}
use pterm.Server.Clients.{delivered}
use pterm.Server.Delivery.{after_snapshot, broadcast_output-delivered}
use pterm.Server.Framing.{stream, cut_frame, queue_snapshot-decode_frames}

-- A client whose socket takes each of these many bytes in turn, and then no more.
abbrev client : Bool → List Write → Bytes → Bytes → Client
client pending writes sent send_buf = record {
  recv_buf = [];
  send_buf = send_buf;
  large_send_buf_warned = false;
  pending_snapshot = pending;
  writes = writes;
  sent = sent;
  reregisters = true;
  writable = false;
}

abbrev pub awaiting : Client
awaiting = client true (wrote 100 ∷ []) [] []

abbrev pub following : Client
following = client false (wrote 3 ∷ Write.would_block ∷ []) [] []

abbrev pub lost : Client
lost = client false (Write.failed ∷ []) [] []

-- One client awaits its snapshot, one follows the output, and one has lost its socket.
abbrev pub three_clients : Clients
three_clients = (1, awaiting) ∷ (2, following) ∷ (3, lost) ∷ []

broadcast_output-delivered_example :
    broadcast_output (codes "screen") (codes "out") three_clients
    ≡ delivered
        (λ c. c.pending_snapshot)
        (after_snapshot true (codes "screen"))
        (queue (encode Server.output (codes "out")))
        three_clients
broadcast_output-delivered_example =
    broadcast_output-delivered (codes "screen") (codes "out") three_clients (omega arith)

-- The socket has taken a frame and the first two bytes of the payload "abcd" of another.
abbrev cut_off : Client
cut_off =
    client true []
      (encode Server.state_sync (codes "s") ++ cut_frame Server.output (codes "ab") (codes "cd"))
      (codes "cd")

abbrev synced : Frame
synced = record { msg_type = Server.state_sync; payload = codes "s" }

queue_snapshot-decode_frames_example :
    (decode_frames (stream (queue_snapshot false (codes "x") cut_off)) ≡ (
      synced
          ∷ record { msg_type = Server.output; payload = codes "abcd" }
          ∷ record { msg_type = Server.state_sync; payload = codes "x" }
          ∷ [],
      [],
    ))
    × (decode_frames (stream (queue_snapshot true (codes "x") cut_off)) ≡ (
      synced
          ∷ record {
            msg_type = Server.output;
            payload = codes "ab" ++ take 2 (encode Server.state_sync (codes "x"));
          }
          ∷ (decode_frames (drop 2 (encode Server.state_sync (codes "x")))).0,
      (decode_frames (drop 2 (encode Server.state_sync (codes "x")))).1,
    ))
unfolding encode
queue_snapshot-decode_frames_example =
    queue_snapshot-decode_frames cut_off (synced ∷ []) Server.output (codes "ab") (codes "cd")
      (codes "x") (omega arith) (omega arith) (omega arith) refl refl (λ e. cc) (omega arith)

-- The same clients, the lost one first.
abbrev turned : Clients
turned = (3, lost) ∷ (2, following) ∷ (1, awaiting) ∷ []

broadcast_output-Perm_example :
    Perm
      (broadcast_output (codes "screen") (codes "out") three_clients)
      (broadcast_output (codes "screen") (codes "out") turned)
broadcast_output-Perm_example =
    broadcast_output-Perm (codes "screen") (codes "out") three_clients turned (omega arith) (
      Permᴰ.trans (Permᴰ.swap refl refl)
        (Permᴰ.trans (Permᴰ.cons refl (Permᴰ.swap refl refl)) (Permᴰ.swap refl refl)))
