-- ===== src/Proto/Split.antt =====
-- The loop of `decode_frames` as a recursion on the bytes that are left, and its two steps: a buffer
-- that holds no complete frame is kept, and one that does gives the frame at its front.
use pterm.Common.{
  ℕ, zero, suc, ◌+◌, ◌<◌, ◌≤◌, ◌≡◌, refl, sym, ap, ◌∙◌, arith, ◌⊎◌, inl, inr, Bool-cases, List, [],
  ◌∷◌, ◌++◌, ap₂, append-nil, append_assoc, leb, ltb, if◌then◌else◌, length, take, drop, drop-drop,
  length-drop, Bytes,
}
use pterm.Proto.{Frame, header_size, decode_header, decode_loop, decode_frames}

-- The payload length that the first header of `buf` declares.
abbrev pub declared_len : Bytes → ℕ
declared_len buf = (decode_header (take header_size buf)).1

abbrev pub first_frame : Bytes → Frame
first_frame buf = record {
  msg_type = (decode_header (take header_size buf)).0;
  payload = take (declared_len buf) (drop header_size buf);
}

-- No complete frame stands at the front of `buf`.
abbrev pub IsPartial : Bytes → Type 0
IsPartial buf = (length buf < header_size) ⊎ (length buf < header_size + declared_len buf)

abbrev pub after_first : Bytes → Bytes
after_first buf = drop (header_size + declared_len buf) buf

split : ℕ → Bytes → List Frame × Bytes
split zero buf = ([], buf)
split (suc fuel) buf =
    let more = split fuel (after_first buf) in
    if leb header_size (length buf)
    then if ltb (length buf) (header_size + declared_len buf)
      then ([], buf)
      else (first_frame buf ∷ more.0, more.1)
    else ([], buf)

abbrev Agrees : List Frame × ℕ → Bytes → List Frame → List Frame × Bytes → Type 0
Agrees looped buf frames s = (looped.0 ≡ frames ++ s.0) × (drop looped.1 buf ≡ s.1)

-- The tests of the loop, read at an offset and at the bytes that are left.
header_test :
    (buf : Bytes) (offset : ℕ)
    → leb (offset + header_size) (length buf) ≡ leb header_size (length (drop offset buf))
header_test buf offset = rw length-drop (ground arith)

payload_test :
    (buf : Bytes) (offset n : ℕ)
    → ltb (length buf) (offset + header_size + n) ≡ ltb (length (drop offset buf)) (header_size + n)
payload_test buf offset n = rw length-drop (ground arith)

decode_loop-split :
    (fuel : ℕ) (buf : Bytes) (offset : ℕ) (frames : List Frame)
    → Agrees (decode_loop fuel buf offset frames) buf frames (split fuel (drop offset buf))
unfolding decode_loop split
decode_loop-split zero buf offset frames = (sym (append-nil frames), refl)
decode_loop-split (suc fuel) buf offset frames =
    let rest = drop offset buf in
    let n = declared_len rest in
    let payload = sym (drop-drop offset header_size (offset + header_size) buf refl) in
    let at_next =
      sym (drop-drop offset (header_size + n) (offset + header_size + n) buf (omega arith)) in
    rw (header_test buf offset, payload_test buf offset n)
      (elim (Bool-cases (leb header_size (length rest))) [
        | inl whole ↦ rw whole (elim (Bool-cases (ltb (length rest) (header_size + n))) [
          | inl cut ↦ rw cut (sym (append-nil frames), refl)
          | inr full ↦
              rw (full, payload)
                (let ih =
                    decode_loop-split fuel buf (offset + header_size + n)
                      (frames ++ first_frame rest ∷ []) in
                  (rw (at_next, append_assoc) at ih.0, rw at_next at ih.1))
        ])
        | inr short ↦ rw short (sym (append-nil frames), refl)
      ])

-- The early return of `drain` on an offset of 0 changes nothing.
drain_lem :
    (offset : ℕ) (buf : Bytes) → (if ltb 0 offset then drop offset buf else buf) ≡ drop offset buf
drain_lem zero buf = refl
drain_lem (suc offset) buf = ground arith

decode_frames-split : (buf : Bytes) → decode_frames buf ≡ split (suc (length buf)) buf
unfolding decode_frames
decode_frames-split buf =
    let (frames, rest) = decode_loop-split (suc (length buf)) buf 0 [] in
    ap₂ (λ a b. (a, b)) frames (drain_lem _ buf ∙ rest)

split_fuel : (f g : ℕ) (buf : Bytes) → length buf < f → length buf < g → split f buf ≡ split g buf
unfolding split
split_fuel zero g buf h k = elim h [ ]
split_fuel (suc f) zero buf h k = elim k [ ]
split_fuel (suc f) (suc g) buf h k =
    ground
      (arith, split_fuel f g (after_first buf), length-drop (header_size + declared_len buf) buf)

pub decode_frames-partial : (buf : Bytes) → IsPartial buf → decode_frames buf ≡ ([], buf)
unfolding split
decode_frames-partial buf h = decode_frames-split buf ∙ ground arith

pub decode_frames-next :
    (buf : Bytes)
    → header_size + declared_len buf ≤ length buf
    → decode_frames buf
      ≡ (first_frame buf ∷ (decode_frames (after_first buf)).0, (decode_frames (after_first buf)).1)
unfolding split
decode_frames-next buf h =
    let rest = after_first buf in
    decode_frames-split buf
    ∙ split-next h
    ∙ sym (
        ap (λ s. (first_frame buf ∷ s.0, s.1))
          (decode_frames-split (after_first buf)
            ∙ split_fuel (suc (length rest)) (length buf) rest (omega arith)
                (omega (arith, length-drop (header_size + declared_len buf) buf))))
  where
    split-next :
        header_size + declared_len buf ≤ length buf
        → split (suc (length buf)) buf ≡ (
          first_frame buf ∷ (split (length buf) (after_first buf)).0,
          (split (length buf) (after_first buf)).1,
        )
    split-next h = ground arith
