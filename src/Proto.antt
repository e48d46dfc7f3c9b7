-- ===== src/Proto.antt =====
-- proto/src/lib.rs: the wire protocol between the daemon and its clients.
--
-- A frame is [type: u8] [length: u32 LE] [payload]. `usize` is taken to be wide enough for every
-- buffer length, as on the 64-bit targets, so only the u32 length field wraps.
pub mod Words
pub mod Client
pub mod Server
pub mod Split
pub mod Stream
pub mod Rest
pub mod Payloads
use pterm.Common.{
  ℕ, zero, suc, ◌+◌, ◌-◌, ◌%◌, ◌^◌, Bool, List, [], ◌∷◌, ◌++◌, leb, ltb, if◌then◌else◌, length,
  get_or, take, drop, Bytes, ℤ,
}
use pterm.Proto.Words.{
  u16_to_le_bytes, u16_from_le_bytes, u32_to_le_bytes, u32_from_le_bytes, i32_bits, i32_of_bits,
}

abbrev pub header_size : ℕ
header_size = 5

abbrev pub resize_payload_size : ℕ
resize_payload_size = 4

abbrev pub exit_payload_size : ℕ
exit_payload_size = 4

pub record Frame : Type 0 where
  pub msg_type : ℕ
  pub payload : Bytes

pub data DecodeError : Type 0 where
  invalid_resize_payload_len : ℕ → DecodeError
  invalid_exit_payload_len : ℕ → DecodeError

pub data Parsed {ℓ} (A : Type ℓ) : Type ℓ where
  ok : A → Parsed A
  err : DecodeError → Parsed A

unfoldable pub encode : ℕ → Bytes → Bytes
unfolding u32_to_le_bytes
encode msg_type payload =
    let len = length payload % 2 ^ 32 in msg_type ∷ (u32_to_le_bytes len ++ payload)

-- The argument is an array of `header_size` bytes.
unfoldable pub decode_header : Bytes → ℕ × ℕ
unfolding u32_from_le_bytes
decode_header header = (
  get_or header 0 0,
  u32_from_le_bytes (get_or header 1 0) (get_or header 2 0) (get_or header 3 0) (get_or header 4 0),
)

-- The `while` loop of `decode_frames`. A round that does not break takes at least a header, so
-- fuel above the length of the buffer is never used up.
unfoldable pub decode_loop : ℕ → Bytes → ℕ → List Frame → List Frame × ℕ
decode_loop zero recv_buf offset frames = (frames, offset)
decode_loop (suc fuel) recv_buf offset frames =
    let header = take header_size (drop offset recv_buf) in
    let (msg_type, payload_len) = decode_header header in
    let start = offset + header_size in
    let payload = take payload_len (drop start recv_buf) in
    let more =
      decode_loop fuel recv_buf (start + payload_len)
        (frames ++ record { msg_type = msg_type; payload = payload } ∷ []) in
    if leb (offset + header_size) (length recv_buf)
    then if ltb (length recv_buf) (offset + header_size + payload_len)
      then (frames, offset)
      else more
    else (frames, offset)

-- The frames, and what is left in `recv_buf`.
unfoldable pub decode_frames : Bytes → List Frame × Bytes
decode_frames recv_buf =
    let (frames, offset) = decode_loop (suc (length recv_buf)) recv_buf 0 [] in
    (frames, if ltb 0 offset then drop offset recv_buf else recv_buf)

unfoldable pub encode_resize : ℕ → ℕ → Bytes
unfolding u16_to_le_bytes
encode_resize cols rows = u16_to_le_bytes cols ++ u16_to_le_bytes rows

-- The argument is an array of `resize_payload_size` bytes.
unfoldable pub decode_resize : Bytes → ℕ × ℕ
unfolding u16_from_le_bytes
decode_resize payload = (
  u16_from_le_bytes (get_or payload 0 0) (get_or payload 1 0),
  u16_from_le_bytes (get_or payload 2 0) (get_or payload 3 0),
)

unfoldable pub parse_resize : Bytes → Parsed (ℕ × ℕ)
unfolding decode_resize
parse_resize (a ∷ b ∷ c ∷ d ∷ []) = ok (decode_resize (a ∷ b ∷ c ∷ d ∷ []))
parse_resize payload = err (invalid_resize_payload_len (length payload))

unfoldable pub encode_exit : ℤ → Bytes
unfolding u32_to_le_bytes
encode_exit exit_code = u32_to_le_bytes (i32_bits exit_code)

unfoldable pub parse_exit : Bytes → Parsed ℤ
unfolding u32_from_le_bytes
parse_exit (a ∷ b ∷ c ∷ d ∷ []) = ok (i32_of_bits (u32_from_le_bytes a b c d))
parse_exit payload = err (invalid_exit_payload_len (length payload))
