-- ===== src/Proto/Stream.antt =====
-- What `decode_frames` makes of a stream of encoded frames, however the stream is cut.
use pterm.Common.{
  ℕ, zero, suc, ◌+◌, ◌%◌, ◌^◌, ◌<◌, ◌≤◌, ◌≡◌, refl, sym, ap, ◌∙◌, arith, ◌⊎◌, inl, inr, Bool-cases,
  List, [], ◌∷◌, ◌++◌, append_assoc, leb, leb→le, length, length-append, length-take, length-drop,
  take-append-drop, take-length-append, drop-length-append, take-append_le, drop-append_le,
  drop-drop, take, drop, All, Bytes,
}
use pterm.Proto.{Frame, header_size, encode, decode_header, decode_frames}
use pterm.Proto.Words.{u32_to-from, u32_from-lt, u32_from_le_bytes, u32_to_le_bytes}
use pterm.Proto.Split.{
  declared_len, first_frame, after_first, IsPartial, decode_frames-partial, decode_frames-next,
}

abbrev pub IsByte : ℕ → Type 0
IsByte b = b < 256

-- The length field can hold the payload's length.
abbrev pub FitsU32 : Frame → Type 0
FitsU32 f = length f.payload < 2 ^ 32

abbrev pub encode_all : List Frame → Bytes
encode_all [] = []
encode_all (f ∷ fs) = encode f.msg_type f.payload ++ encode_all fs

pub IsPartial-cases : (buf : Bytes) → IsPartial buf ⊎ (header_size + declared_len buf ≤ length buf)
IsPartial-cases buf = elim (Bool-cases (leb (header_size + declared_len buf) (length buf))) [
  | inl h ↦ inr (leb→le _ _ h)
  | inr h ↦ inl (inr (ground arith))
]

declared_len-encode :
    (t : ℕ) (p rest : Bytes) → length p < 2 ^ 32 → declared_len (encode t p ++ rest) ≡ length p
unfolding encode decode_header u32_from_le_bytes
declared_len-encode t p rest h = omega arith

first_frame-encode :
    (f : Frame) (rest : Bytes) → FitsU32 f → first_frame (encode f.msg_type f.payload ++ rest) ≡ f
unfolding encode decode_header
first_frame-encode f rest h =
    ap (λ (p : Bytes). record { msg_type = f.msg_type; payload = p })
      (ap (λ n. take n (f.payload ++ rest)) (declared_len-encode f.msg_type f.payload rest h)
        ∙ take-length-append f.payload rest)

after_first-encode :
    (f : Frame) (rest : Bytes)
    → FitsU32 f
    → after_first (encode f.msg_type f.payload ++ rest) ≡ rest
unfolding encode
after_first-encode f rest h =
    ap (λ n. drop (header_size + n) (encode f.msg_type f.payload ++ rest))
      (declared_len-encode f.msg_type f.payload rest h)
    ∙ sym (drop-drop header_size (length f.payload) (header_size + length f.payload) _ refl)
    ∙ drop-length-append f.payload rest

length-encode : (t : ℕ) (p : Bytes) → length (encode t p) ≡ header_size + length p
unfolding encode
length-encode t p = omega arith

pub decode_frames-encode :
    (f : Frame) (rest : Bytes)
    → FitsU32 f
    → decode_frames (encode f.msg_type f.payload ++ rest)
      ≡ (f ∷ (decode_frames rest).0, (decode_frames rest).1)
decode_frames-encode f rest h =
    decode_frames-next (encode f.msg_type f.payload ++ rest) (
      omega (
        arith,
        declared_len-encode f.msg_type f.payload rest h,
        length-encode f.msg_type f.payload,
        length-append (encode f.msg_type f.payload) rest,
      ))
    ∙ rw (first_frame-encode f rest h, after_first-encode f rest h)

-- Any frames whose payload length fits a u32, encoded one behind the other and followed by a
-- partial frame, decode to those frames in order, and the partial frame is kept.
pub decode_frames-encode_all :
    (fs : List Frame) (tail : Bytes)
    → All FitsU32 fs
    → IsPartial tail
    → decode_frames (encode_all fs ++ tail) ≡ (fs, tail)
decode_frames-encode_all [] tail h p = decode_frames-partial tail p
decode_frames-encode_all (f ∷ fs) tail (h, hs) p =
    rw append_assoc (
      decode_frames-encode f (encode_all fs ++ tail) h ∙ rw (decode_frames-encode_all fs tail hs p))

-- What reads the front of `a` reads the same in `a ++ b`, as long as it stays inside `a`.
module _ (a b : Bytes) where
  declared_len-append : header_size ≤ length a → declared_len (a ++ b) ≡ declared_len a
  declared_len-append h = ap (λ t. (decode_header t).1) (take-append_le header_size a b h)

  module _ (h : header_size + declared_len a ≤ length a) where
    first_frame-append : first_frame (a ++ b) ≡ first_frame a
    unfolding decode_header
    first_frame-append = rw (
      take-append_le header_size a b (omega arith),
      drop-append_le header_size a b (omega arith),
      take-append_le (declared_len a) (drop header_size a) b
          (omega (arith, length-drop header_size a)),
    )

    after_first-append : after_first (a ++ b) ≡ after_first a ++ b
    unfolding decode_header
    after_first-append =
        rw (take-append_le header_size a b (omega arith))
          (drop-append_le (header_size + declared_len a) a b h)

    decode_frames-next_append : decode_frames (a ++ b) ≡ (
      first_frame a ∷ (decode_frames (after_first a ++ b)).0,
      (decode_frames (after_first a ++ b)).1,
    )
    decode_frames-next_append =
        decode_frames-next (a ++ b)
          (omega (arith, declared_len-append (omega arith), length-append a b))
        ∙ rw (first_frame-append, after_first-append)

Resumes : Bytes → Bytes → Type 0
Resumes a b = decode_frames (a ++ b) ≡ (
  (decode_frames a).0 ++ (decode_frames ((decode_frames a).1 ++ b)).0,
  (decode_frames ((decode_frames a).1 ++ b)).1,
)

decode_frames-append_fuel : (k : ℕ) (a b : Bytes) → length a < k → Resumes a b
unfolding Resumes
decode_frames-append_fuel zero a b h = elim h [ ]
decode_frames-append_fuel (suc k) a b h = elim (IsPartial-cases a) [
  | inl p ↦ rw (decode_frames-partial a p)
  | inr c ↦
      let shorter = length-drop (header_size + declared_len a) a in
      rw (decode_frames-next a c, decode_frames-next_append a b c)
        (ap (λ s. (first_frame a ∷ s.0, s.1))
          (decode_frames-append_fuel k (after_first a) b (omega (arith, shorter))))
]

-- Decoding bytes in two reads, with what the first leaves kept in front of the second, gives the
-- frames and the rest of decoding them at once.
pub decode_frames-append :
    (a b : Bytes)
    → decode_frames (a ++ b) ≡ (
      (decode_frames a).0 ++ (decode_frames ((decode_frames a).1 ++ b)).0,
      (decode_frames ((decode_frames a).1 ++ b)).1,
    )
unfolding Resumes
decode_frames-append a b = decode_frames-append_fuel (suc (length a)) a b (omega arith)

encode-parts :
    (t : ℕ) (p : Bytes) → length p < 2 ^ 32 → encode t p ≡ t ∷ (u32_to_le_bytes (length p) ++ p)
unfolding encode
encode-parts t p h = let e : length p % 2 ^ 32 ≡ length p = omega arith in rw e

-- The first frame and the bytes behind it are the whole buffer.
encode-first_frame :
    (buf : Bytes)
    → All IsByte buf
    → header_size + declared_len buf ≤ length buf
    → encode (first_frame buf).msg_type (first_frame buf).payload ++ after_first buf ≡ buf
unfolding decode_header
encode-first_frame (t ∷ b0 ∷ b1 ∷ b2 ∷ b3 ∷ p) (ht, (h0, (h1, (h2, (h3, hp))))) c =
    let n = u32_from_le_bytes b0 b1 b2 b3 in
    let fits = u32_from-lt b0 b1 b2 b3 h0 h1 h2 h3 in
    let len = length-take n p (omega arith) in
    let header = u32_to-from b0 b1 b2 b3 h0 h1 h2 h3 in
    let behind = drop-drop header_size n (header_size + n) (t ∷ b0 ∷ b1 ∷ b2 ∷ b3 ∷ p) refl in
    rw (encode-parts t (take n p) (omega arith), len, header, ← behind, take-append-drop n p)
encode-first_frame _ h c = absurd (omega arith)

All-drop : (n : ℕ) (xs : Bytes) → All IsByte xs → All IsByte (drop n xs)
All-drop zero xs h = h
All-drop (suc n) [] h = tt
All-drop (suc n) (x ∷ xs) (h, hs) = All-drop n xs hs

abbrev Lossless : Bytes → List Frame × Bytes → Type 0
Lossless buf d = (encode_all d.0 ++ d.1 ≡ buf) × IsPartial d.1

decode_frames-Lossless_fuel :
    (k : ℕ) (buf : Bytes) → length buf < k → All IsByte buf → Lossless buf (decode_frames buf)
decode_frames-Lossless_fuel zero buf h bytes = elim h [ ]
decode_frames-Lossless_fuel (suc k) buf h bytes = elim (IsPartial-cases buf) [
  | inl p ↦ rw (decode_frames-partial buf p) (refl, p)
  | inr c ↦
      let n = header_size + declared_len buf in
      let (same, cut) =
        decode_frames-Lossless_fuel k (after_first buf) (omega (arith, length-drop n buf))
          (All-drop n buf bytes) in
      rw (decode_frames-next buf c) (
        rw append_assoc (
            ap (◌++◌ (encode (first_frame buf).msg_type (first_frame buf).payload)) same
            ∙ encode-first_frame buf bytes c),
        cut,
      )
]

-- For a buffer of bytes below 256, the decoded frames encoded again, followed by what is left of
-- the buffer, are the bytes of the buffer, and what is left has no complete frame at its front.
pub decode_frames-lossless :
    (buf : Bytes)
    → All IsByte buf
    → (encode_all (decode_frames buf).0 ++ (decode_frames buf).1 ≡ buf)
      × IsPartial (decode_frames buf).1
decode_frames-lossless buf h = decode_frames-Lossless_fuel (suc (length buf)) buf (omega arith) h

-- Whole frames in front of any bytes are decoded first.
pub decode_frames-encode_all_append :
    (fs : List Frame) (rest : Bytes)
    → All FitsU32 fs
    → decode_frames (encode_all fs ++ rest) ≡ (fs ++ (decode_frames rest).0, (decode_frames rest).1)
decode_frames-encode_all_append [] rest h = refl
decode_frames-encode_all_append (f ∷ fs) rest (h, hs) = rw append_assoc (
    decode_frames-encode f (encode_all fs ++ rest) h
    ∙ rw (decode_frames-encode_all_append fs rest hs))
