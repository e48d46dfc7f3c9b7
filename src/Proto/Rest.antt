-- ===== src/Proto/Rest.antt =====
-- What decoding leaves of a buffer: a partial frame, in which nothing more is found.
use pterm.Common.{length, length-drop, ℕ, zero, suc, ◌+◌, ◌<◌, inl, inr, arith, Bytes}
use pterm.Proto.{decode_frames, header_size}
use pterm.Proto.Stream.{IsPartial-cases}
use pterm.Proto.Split.{
  IsPartial, decode_frames-partial, decode_frames-next, after_first, declared_len,
}

IsPartial-fuel : (k : ℕ) (buf : Bytes) → length buf < k → IsPartial (decode_frames buf).1
IsPartial-fuel zero buf h = elim h [ ]
IsPartial-fuel (suc k) buf h = elim (IsPartial-cases buf) [
  | inl p ↦ rw (decode_frames-partial buf p) p
  | inr c ↦
      let shorter = length-drop (header_size + declared_len buf) buf in
      rw (decode_frames-next buf c) (IsPartial-fuel k (after_first buf) (omega (arith, shorter)))
]

pub decode_frames-IsPartial : (buf : Bytes) → IsPartial (decode_frames buf).1
decode_frames-IsPartial buf = IsPartial-fuel (suc (length buf)) buf (omega arith)
