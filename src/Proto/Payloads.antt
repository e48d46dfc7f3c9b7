-- ===== src/Proto/Payloads.antt =====
-- The payloads of RESIZE and EXIT: what is parsed back, and what is refused.
use pterm.Common.{ℕ, ◌^◌, ◌<◌, ◌≡◌, ◌≢◌, refl, arith, [], ◌∷◌, length, Bytes, ℤ}
use pterm.Proto.{
  ok, err, invalid_resize_payload_len, invalid_exit_payload_len, encode_resize, parse_resize,
  encode_exit, parse_exit, resize_payload_size, exit_payload_size,
}
use pterm.Proto.Words.{u16_from-to, u32_from-to, IsI32, i32_bits, i32_of_bits-i32_bits}

-- The resize payload of two u16 sizes is parsed back.
pub parse_resize-encode_resize :
    (cols rows : ℕ)
    → cols < 2 ^ 16
    → rows < 2 ^ 16
    → parse_resize (encode_resize cols rows) ≡ ok (cols, rows)
unfolding parse_resize encode_resize
parse_resize-encode_resize cols rows hc hr = rw (u16_from-to cols hc, u16_from-to rows hr)

i32_bits-lt : (z : ℤ) → i32_bits z < 2 ^ 32
i32_bits-lt z = ground arith

-- The exit payload of every i32, negative ones included, is parsed back.
pub parse_exit-encode_exit : (code : ℤ) → IsI32 code → parse_exit (encode_exit code) ≡ ok code
unfolding parse_exit encode_exit
parse_exit-encode_exit code h =
    rw (u32_from-to (i32_bits code) (i32_bits-lt code), i32_of_bits-i32_bits code h)

-- A payload of any other length is refused, and the error carries that length.
pub parse_resize-wrong_length :
    (payload : Bytes)
    → length payload ≢ resize_payload_size
    → parse_resize payload ≡ err (invalid_resize_payload_len (length payload))
unfolding parse_resize
parse_resize-wrong_length (a ∷ b ∷ c ∷ d ∷ []) h = absurd (h refl)
parse_resize-wrong_length _ h = refl

pub parse_exit-wrong_length :
    (payload : Bytes)
    → length payload ≢ exit_payload_size
    → parse_exit payload ≡ err (invalid_exit_payload_len (length payload))
unfolding parse_exit
parse_exit-wrong_length (a ∷ b ∷ c ∷ d ∷ []) h = absurd (h refl)
parse_exit-wrong_length _ h = refl
