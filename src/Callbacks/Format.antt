-- ===== src/Callbacks/Format.antt =====
-- src/session.rs: sequences written back as the bytes that they were read from.
use pterm.Common.{
  ℕ, ◌+◌, ◌%◌, Bool, List, [], ◌∷◌, ◌++◌, Option, none, some, ltb, leb, if◌then◌else◌, Bytes, codes,
  to_string,
}
use pterm.Kitty.{Params}

abbrev push_byte : Bytes → Option ℕ → Bytes
push_byte seq none = seq
push_byte seq (some b) = seq ++ b ∷ []

unfoldable pub format_unhandled_escape : Option ℕ → Option ℕ → ℕ → Bytes
format_unhandled_escape i1 i2 b = push_byte (push_byte (0x1b ∷ []) i1) i2 ++ b ∷ []

-- The inner loop of `format_unhandled_csi`, over the subparameters of one parameter.
push_subparams : Bytes → ℕ → List ℕ → Bytes
push_subparams seq sub_idx [] = seq
push_subparams seq sub_idx (value ∷ param) =
    push_subparams ((if ltb 0 sub_idx then seq ++ b':' ∷ [] else seq) ++ to_string value)
      (sub_idx + 1) param

push_params : Bytes → ℕ → Params → Bytes
push_params seq idx [] = seq
push_params seq idx (param ∷ params) =
    push_params (push_subparams (if ltb 0 idx then seq ++ b';' ∷ [] else seq) 0 param) (idx + 1)
      params

abbrev push_if : (ℕ → Bool) → Bytes → Option ℕ → Bytes
push_if test seq none = seq
push_if test seq (some i) = if test i then seq ++ i ∷ [] else seq

-- Private bytes (0x3C and above) stand before the parameters, intermediate bytes behind them. `c` is
-- a code point, cut to a byte.
unfoldable pub format_unhandled_csi : Option ℕ → Option ℕ → Params → ℕ → Bytes
unfolding push_subparams push_params
format_unhandled_csi i1 i2 params c =
    let opened = push_if (λ i. leb 0x3C i) (0x1b ∷ b'[' ∷ []) i1 in
    let closed = push_if (λ i. ltb i 0x3C) (push_params opened 0 params) i1 in
    push_byte closed i2 ++ (c % 256) ∷ []

push_osc_params : Bytes → ℕ → List Bytes → Bytes
push_osc_params seq idx [] = seq
push_osc_params seq idx (param ∷ params) =
    push_osc_params ((if ltb 0 idx then seq ++ b';' ∷ [] else seq) ++ param) (idx + 1) params

unfoldable pub format_unhandled_osc : List Bytes → Bytes
unfolding push_osc_params
format_unhandled_osc params = push_osc_params (0x1b ∷ b']' ∷ []) 0 params ++ 0x1b ∷ b'\\' ∷ []

unfoldable pub format_clipboard_copy : Bytes → Bytes → Bytes
format_clipboard_copy screen text =
    (0x1b ∷ codes "]52;") ++ screen ++ b';' ∷ [] ++ text ++ 0x1b ∷ b'\\' ∷ []
