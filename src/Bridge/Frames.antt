-- ===== src/Bridge/Frames.antt =====
-- What the bridge prints of the frames that it receives.
use pterm.Proto.Payloads.{parse_exit-encode_exit}
use pterm.Proto.Split.{IsPartial}
use pterm.Proto.Words.{IsI32}
use pterm.Proto.Stream.{decode_frames-encode_all, encode_all, FitsU32}
use pterm.Common.{
  or_false, sym, refl, true, inr, inl, false, ◌⊎◌, ℤ, ◌==◌, if◌then◌else◌, All, ◌≡◌, ap, ◌∙◌, ◌≢◌,
  Bool, not, ◌&&◌, ◌||◌, List, [], ◌∷◌, ◌++◌, append-nil, append_assoc, arith, Bytes,
}
use pterm.Proto.{decode_frames, encode_exit, Frame}
use pterm.Proto.Server
use pterm.Bridge.{
  ok, is_err, write_all_raw, decode_frames, is_empty, print, process_socket, Bridge, Batch,
  state_sync_keyboard_cleanup_sequences, batch_frames,
}

-- The printed bytes of one frame: the payload of OUTPUT and STATE_SYNC, and nothing of any other.
abbrev pub printed : Frame → Bytes
printed f = if f.msg_type == Server.output || f.msg_type == Server.state_sync then f.payload else []

abbrev pub is_sync : Frame → Bool
is_sync f = f.msg_type == Server.state_sync

-- The bytes printed for some frames; the keyboard is reset once, before the first STATE_SYNC.
abbrev pub printed_all : Bool → List Frame → Bytes
printed_all cleaned [] = []
printed_all cleaned (f ∷ fs) =
    (if is_sync f && not cleaned then state_sync_keyboard_cleanup_sequences else [])
    ++ (printed f ++ printed_all (cleaned || is_sync f) fs)

abbrev pub some_sync : Bool → List Frame → Bool
some_sync cleaned [] = cleaned
some_sync cleaned (f ∷ fs) = some_sync (cleaned || is_sync f) fs

abbrev pub IsNotExit : Frame → Type 0
IsNotExit f = f.msg_type ≢ Server.exit

batch_frames-step :
    (f : Frame) (rest : List Frame) (b : Batch)
    → IsNotExit f
    → batch_frames (f ∷ rest) b
      ≡ batch_frames rest (record b {
        output_batch =
            b.output_batch
            ++ ((if is_sync f && not b.cleanup_queued
                  then state_sync_keyboard_cleanup_sequences
                  else [])
                ++ printed f);
        cleanup_queued = b.cleanup_queued || is_sync f;
      })
unfolding batch_frames
batch_frames-step f rest b n = ground (
  arith,
  append-nil b.output_batch,
  append-nil f.payload,
  append-nil state_sync_keyboard_cleanup_sequences,
  append_assoc b.output_batch state_sync_keyboard_cleanup_sequences f.payload,
)

pub batch_frames-append :
    (fs rest : List Frame) (b : Batch)
    → All IsNotExit fs
    → batch_frames (fs ++ rest) b
      ≡ batch_frames rest (record b {
        output_batch = b.output_batch ++ printed_all b.cleanup_queued fs;
        cleanup_queued = some_sync b.cleanup_queued fs;
      })
batch_frames-append [] rest b h = rw append-nil
batch_frames-append (f ∷ fs) rest b (n, h) =
    batch_frames-step f (fs ++ rest) b n
    ∙ batch_frames-append fs rest _ h
    ∙ ap
        (λ o. batch_frames rest (record {
          output_batch = o;
          cleanup_queued = some_sync (b.cleanup_queued || is_sync f) fs;
          exit_code = b.exit_code;
          exited = b.exited;
        }))
        (simp append_assoc)

abbrev start_batch : Bridge → Batch
start_batch b = record {
  output_batch = [];
  cleanup_queued = false;
  exit_code = b.exit_code;
  exited = false;
}

-- Printing nothing changes nothing.
print-empty : (b : Bridge) → print [] b ≡ (ok tt, b)
unfolding print write_all_raw
print-empty b = refl

is_empty-cases : (bytes : Bytes) → (bytes ≡ []) ⊎ (is_empty bytes ≡ false)
is_empty-cases [] = inl refl
is_empty-cases (b ∷ bytes) = inr refl

-- `process_socket` prints the batch, of no byte or of some.
process_socket-batch :
    (b : Bridge) (frames : List Frame) (rest : Bytes) (batch : Batch)
    → decode_frames b.recv_buf ≡ (frames, rest)
    → batch_frames frames (start_batch b) ≡ batch
    → process_socket b ≡ (
        let printed =
          print batch.output_batch (record b { recv_buf = rest; exit_code = batch.exit_code }) in
        (printed.1, batch.exited || is_err printed.0))
unfolding process_socket
process_socket-batch b frames rest batch h e = elim (is_empty-cases batch.output_batch) [
  | inl i ↦ simp (h, e, i, print-empty, or_false) refl
  | inr i ↦ simp (h, e, i) refl
]

abbrev pub exit_frame : ℤ → Frame
exit_frame code = record { msg_type = Server.exit; payload = encode_exit code }

-- Where the buffer holds frames without an EXIT, the EXIT of an i32 code, any frames behind it and
-- a partial frame, all with payloads that fit a u32: the bridge prints what the frames before the
-- EXIT give, takes the code of the EXIT, ends, and prints nothing of the frames behind it.
pub process_socket-exit :
    (b : Bridge) (fs after : List Frame) (code : ℤ) (tail : Bytes)
    → IsI32 code
    → All FitsU32 (fs ++ exit_frame code ∷ after)
    → All IsNotExit fs
    → IsPartial tail
    → b.recv_buf ≡ encode_all (fs ++ exit_frame code ∷ after) ++ tail
    → process_socket b
      ≡ ((print (printed_all false fs) (record b { recv_buf = tail; exit_code = code })).1, true)
unfolding batch_frames
process_socket-exit b fs after code tail c h n p e =
    process_socket-batch b (fs ++ exit_frame code ∷ after) tail
      (record {
        output_batch = printed_all false fs;
        cleanup_queued = some_sync false fs;
        exit_code = code;
        exited = true;
      })
      (simp e (decode_frames-encode_all (fs ++ exit_frame code ∷ after) tail h p))
      (batch_frames-append fs (exit_frame code ∷ after) _ n
        ∙ simp (parse_exit-encode_exit code c) refl)

-- Where the buffer holds frames without an EXIT, with payloads that fit a u32, and a partial frame:
-- the bridge prints the payloads of OUTPUT and STATE_SYNC in order, with the keyboard reset once
-- before the first STATE_SYNC, keeps a partial frame, and goes on unless the terminal fails.
pub process_socket-prints :
    (b : Bridge) (fs : List Frame) (tail : Bytes)
    → All FitsU32 fs
    → All IsNotExit fs
    → IsPartial tail
    → b.recv_buf ≡ encode_all fs ++ tail
    → process_socket b ≡ (
        let printed = print (printed_all false fs) (record b { recv_buf = tail }) in
        (printed.1, is_err printed.0))
unfolding batch_frames
process_socket-prints b fs tail h n p e =
    process_socket-batch b fs tail
      (record {
        output_batch = printed_all false fs;
        cleanup_queued = some_sync false fs;
        exit_code = b.exit_code;
        exited = false;
      })
      (simp e (decode_frames-encode_all fs tail h p))
      (sym (ap (λ frames. batch_frames frames (start_batch b)) (append-nil fs))
        ∙ batch_frames-append fs [] _ n)
