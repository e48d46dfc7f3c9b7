-- ===== src/Server/Framing.antt =====
-- The bytes that a client's socket has taken and will take, as a stream of frames.
use pterm.Common.{
  ◌==◌, if◌then◌else◌, Bool-cases, length, take, drop, All, length-append, take-append-drop,
  length-take, ℕ, ◌%◌, ◌^◌, ◌≤◌, ◌<◌, ◌≡◌, refl, sym, ap, ◌∙◌, ◌≢◌, inl, inr, Bool, true, false,
  List, [], ◌∷◌, ◌++◌, append-nil, append_assoc, arith, Bytes,
}
use pterm.Io.{Write, wrote}
use pterm.Proto.{Frame, encode, decode_frames}
use pterm.Proto.Server
use pterm.Proto.Words.{u32_to_le_bytes}
use pterm.Proto.Stream.{
  FitsU32, encode_all, decode_frames-encode, decode_frames-encode_all,
  decode_frames-encode_all_append,
}
use pterm.Server.{Client, is_empty, is_err, flush_loop, after_flush, flush_client}
use pterm.Server.Broadcast.{queue_snapshot}

-- What the client at the other end has got and is still to get.
abbrev pub stream : Client → Bytes
stream c = c.sent ++ c.send_buf

flush_loop-stream :
    (writes : List Write) (send_buf sent : Bytes)
    → (flush_loop writes send_buf sent).sent ++ (flush_loop writes send_buf sent).send_buf
      ≡ sent ++ send_buf
unfolding flush_loop
flush_loop-stream writes [] sent = refl
flush_loop-stream [] (b ∷ bs) sent = refl
flush_loop-stream (wrote n ∷ writes) (b ∷ bs) sent = elim (Bool-cases (n == 0)) [
  | inl z ↦ rw (z, flush_loop)
  | inr s ↦
      rw (s, flush_loop)
        (flush_loop-stream writes (drop n (b ∷ bs)) (sent ++ take n (b ∷ bs))
          ∙ append_assoc sent (take n (b ∷ bs)) (drop n (b ∷ bs))
          ∙ ap (λ t. sent ++ t) (take-append-drop n (b ∷ bs)))
]
flush_loop-stream (Write.would_block ∷ writes) (b ∷ bs) sent = refl
flush_loop-stream (_ ∷ writes) (b ∷ bs) sent = refl

after_flush-stream : (c : Client) → stream (after_flush c).1 ≡ stream c
unfolding after_flush
after_flush-stream c = ground arith

-- A flush, successful or not, changes no byte of what a client has got and is still to get.
pub flush_client-stream : (c : Client) → stream (flush_client c).1 ≡ stream c
unfolding flush_client
flush_client-stream c =
    let f = flush_loop c.writes c.send_buf c.sent in
    let moved = flush_loop-stream c.writes c.send_buf c.sent in
    let c' = record c { writes = f.writes; send_buf = f.send_buf; sent = f.sent } in
    elim (Bool-cases (is_err f.result)) [
      | inl e ↦ rw e moved
      | inr e ↦ rw e (after_flush-stream c' ∙ moved)
    ]

-- The start of a frame whose payload is cut between `q` and `r`.
abbrev pub cut_frame : ℕ → Bytes → Bytes → Bytes
cut_frame t q r = t ∷ (u32_to_le_bytes (length (q ++ r) % 2 ^ 32) ++ q)

cut_frame-encode :
    (t : ℕ) (q r s : Bytes) → length s ≡ length r → cut_frame t q r ++ s ≡ encode t (q ++ s)
unfolding encode
cut_frame-encode t q r s h =
    let e : length (q ++ r) ≡ length (q ++ s) =
      omega (arith, length-append q r, length-append q s) in
    rw e

pub is_empty-ne : (bytes : Bytes) → bytes ≢ [] → is_empty bytes ≡ false
is_empty-ne [] h = absurd (h refl)
is_empty-ne (b ∷ bs) h = refl

pub queue_snapshot-stream :
    (replace : Bool) (snapshot : Bytes) (c : Client)
    → snapshot ≢ []
    → stream (queue_snapshot replace snapshot c)
      ≡ c.sent ++ ((if replace then [] else c.send_buf) ++ encode Server.state_sync snapshot)
unfolding queue_snapshot
queue_snapshot-stream replace snapshot c ne = rw (is_empty-ne snapshot ne)

-- For a client whose socket has taken whole frames and the start of one more whose end is queued,
-- all payloads fitting a u32: a non-empty snapshot queued behind decodes as a frame of its own; a
-- snapshot at least as long as that end, which replaces the queue, is taken for the end of the
-- payload begun.
pub queue_snapshot-decode_frames :
    (c : Client) (fs : List Frame) (t : ℕ) (q r snapshot : Bytes)
    → All FitsU32 fs
    → length (q ++ r) < 2 ^ 32
    → length snapshot < 2 ^ 32
    → c.sent ≡ encode_all fs ++ cut_frame t q r
    → c.send_buf ≡ r
    → snapshot ≢ []
    → length r ≤ length (encode Server.state_sync snapshot)
    → let sync = encode Server.state_sync snapshot in
      (decode_frames (stream (queue_snapshot false snapshot c)) ≡ (
        fs
            ++ record { msg_type = t; payload = q ++ r }
              ∷ record { msg_type = Server.state_sync; payload = snapshot }
              ∷ [],
        [],
      ))
      × (decode_frames (stream (queue_snapshot true snapshot c)) ≡ (
        fs
            ++ record { msg_type = t; payload = q ++ take (length r) sync }
              ∷ (decode_frames (drop (length r) sync)).0,
        (decode_frames (drop (length r) sync)).1,
      ))
queue_snapshot-decode_frames c fs t q r snapshot fits h hs sent queued ne long =
    let sync = encode Server.state_sync snapshot in
    let n = length r in
    let cut : Frame = record { msg_type = t; payload = q ++ r } in
    let synced : Frame = record { msg_type = Server.state_sync; payload = snapshot } in
    let mixed : Frame = record { msg_type = t; payload = q ++ take n sync } in
    let front = length-take n sync long in
    let kept : c.sent ++ (c.send_buf ++ sync)
        ≡ encode_all fs ++ (encode_all (cut ∷ synced ∷ []) ++ []) =
      rw (sent, queued, append-nil, ← cut_frame-encode t q r r refl)
        (simp (append_assoc, append-nil)) in
    let replaced : c.sent ++ sync ≡ encode_all fs ++ (encode t mixed.payload ++ drop n sync) =
      rw (sent, ← cut_frame-encode t q r (take n sync) front)
        (append_assoc (encode_all fs) (cut_frame t q r) sync
          ∙ ap (λ b. encode_all fs ++ (cut_frame t q r ++ b)) (sym (take-append-drop n sync))
          ∙ ap (λ b. encode_all fs ++ b)
              (sym (append_assoc (cut_frame t q r) (take n sync) (drop n sync)))) in
    (
      ap decode_frames (queue_snapshot-stream false snapshot c ne ∙ kept)
          ∙ decode_frames-encode_all_append fs _ fits
          ∙ rw (decode_frames-encode_all (cut ∷ synced ∷ []) [] (h, (hs, tt)) (inl (omega arith))),
      ap decode_frames (queue_snapshot-stream true snapshot c ne ∙ replaced)
          ∙ decode_frames-encode_all_append fs _ fits
          ∙ rw (
              decode_frames-encode mixed (drop n sync)
                (omega (arith, front, length-append q r, length-append q (take n sync)))),
    )
