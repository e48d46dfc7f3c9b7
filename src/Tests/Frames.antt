-- ===== src/Tests/Frames.antt =====
-- proto/src/lib.rs on concrete frames.
use pterm.Common.{codes, ◌≡◌, inl, List, [], ◌∷◌, ◌++◌, arith, Bytes}
use pterm.Proto.{Frame, decode_frames}
use pterm.Proto.Client
use pterm.Proto.Server
use pterm.Proto.Split.{IsPartial}
use pterm.Proto.Stream.{
  encode_all, decode_frames-encode_all, decode_frames-append, decode_frames-lossless,
}

abbrev two_frames : List Frame
two_frames =
    record { msg_type = Server.output; payload = codes "hi" }
    ∷ record { msg_type = Server.exit; payload = 3 ∷ 0 ∷ 0 ∷ 0 ∷ [] }
    ∷ []

abbrev half_header : Bytes
half_header = Server.output ∷ 5 ∷ []

decode_frames-encode_all_example :
    decode_frames (encode_all two_frames ++ half_header) ≡ (two_frames, half_header)
decode_frames-encode_all_example =
    decode_frames-encode_all two_frames half_header (omega arith) (inl (omega arith))

abbrev cut_message : Bytes
cut_message = Client.resize ∷ 4 ∷ 0 ∷ 0 ∷ 0 ∷ 80 ∷ []

decode_frames-append_example : decode_frames (cut_message ++ (0 ∷ 24 ∷ 0 ∷ 7 ∷ [])) ≡ (
  (decode_frames cut_message).0
      ++ (decode_frames ((decode_frames cut_message).1 ++ (0 ∷ 24 ∷ 0 ∷ 7 ∷ []))).0,
  (decode_frames ((decode_frames cut_message).1 ++ (0 ∷ 24 ∷ 0 ∷ 7 ∷ []))).1,
)
decode_frames-append_example = decode_frames-append cut_message (0 ∷ 24 ∷ 0 ∷ 7 ∷ [])

abbrev received : Bytes
received = Client.input ∷ 1 ∷ 0 ∷ 0 ∷ 0 ∷ b'x' ∷ cut_message

decode_frames-lossless_example :
    (encode_all (decode_frames received).0 ++ (decode_frames received).1 ≡ received)
    × IsPartial (decode_frames received).1
decode_frames-lossless_example = decode_frames-lossless received (omega arith)
