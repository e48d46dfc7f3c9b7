-- ===== src/Filter/Stream.antt =====
-- The filter over a whole input, and over an input that arrives in pieces.
use pterm.Common.{
  false, ◌==◌, ◌≢◌, ℕ, All, ◌+◌, ◌≤◌, ◌≡◌, refl, sym, ap, ◌∙◌, arith, inl, inr, [], ◌∷◌, ◌++◌,
  append-nil, append_assoc, length, length-append, Bytes, equal, starts_with,
}
use pterm.Filter.{
  flush_pending, TerminalOutputFilter, initial, escape, is_terminal_query_csi, filter_byte, filter,
}
use pterm.Filter.Query.{DeviceQuery, device_query}
use pterm.Filter.Account.{
  Accounts, nothing, keep, drop_query, IsWellFormed, filter_byte-IsWellFormed, Explains,
  filter_byte-Explains,
}

-- Filtering keeps a well-formed filter well formed: nothing is held back on the ground, one byte
-- behind an ESC, and never more than the limit on a control sequence.
pub filter-IsWellFormed :
    (input : Bytes) {f : TerminalOutputFilter} (output : Bytes)
    → IsWellFormed f
    → IsWellFormed (filter f input output).0
unfolding filter
filter-IsWellFormed [] output w = w
filter-IsWellFormed (byte ∷ input) {f} output w =
    filter-IsWellFormed input _ (filter_byte-IsWellFormed f.state f byte output refl w)

filter-Explains :
    (input : Bytes) {f : TerminalOutputFilter} {read output : Bytes}
    → IsWellFormed f
    → Accounts read output
    → Explains read (f.pending ++ input) (filter f input output)
unfolding filter
filter-Explains [] {f} {read} w a = (read, a, ap (λ t. read ++ t) (sym (append-nil f.pending)))
filter-Explains (byte ∷ input) {f} {read} {output} w a =
    let (read', a', e) = filter_byte-Explains f.state f byte refl w a in
    let (last, b, e') =
      filter-Explains input (filter_byte-IsWellFormed f.state f byte output refl w) a' in
    (
      last,
      b,
      e'
          ∙ sym (append_assoc read' _ input)
          ∙ ap (λ t. t ++ input) e
          ∙ append_assoc read (f.pending ++ byte ∷ []) input
          ∙ ap (λ t. read ++ t) (append_assoc f.pending (byte ∷ []) input),
    )

-- From a well-formed filter, the output with some whole terminal queries put back, followed by what
-- is still held back, is what was held back followed by the input.
pub filter-Accounts :
    (input : Bytes) (f : TerminalOutputFilter)
    → IsWellFormed f
    → (read : Bytes) × Accounts read (filter f input []).1
      × (read ++ (filter f input []).0.pending ≡ f.pending ++ input)
filter-Accounts input f w = filter-Explains input w nothing

-- An input may be cut anywhere: filtering its parts in turn gives the filter and the output of
-- filtering it at once.
pub filter-append :
    (a b : Bytes) (f : TerminalOutputFilter) (output : Bytes)
    → filter f (a ++ b) output ≡ filter (filter f a output).0 b (filter f a output).1
unfolding filter
filter-append [] b f output = refl
filter-append (x ∷ a) b f output = filter-append a b _ _

Accounts-length : {read kept : Bytes} → Accounts read kept → length kept ≤ length read
Accounts-length nothing = omega arith
Accounts-length (keep {read} {kept} piece a) =
    omega (arith, Accounts-length a, length-append read piece, length-append kept piece)
Accounts-length (drop_query {read} query q a) =
    omega (arith, Accounts-length a, length-append read query)

-- One call of a well-formed filter outputs at most as many bytes as were held back and as it is
-- given.
pub length-filter :
    (input : Bytes) (f : TerminalOutputFilter)
    → IsWellFormed f
    → length (filter f input []).1 ≤ length f.pending + length input
length-filter input f w =
    let (read, a, e) = filter-Accounts input f w in
    omega (
      arith,
      Accounts-length a,
      ap length e,
      length-append read (filter f input []).0.pending,
      length-append f.pending input,
    )

-- A device-attribute query that the initial filter is given is removed, whatever follows it, and
-- leaves the filter as it was.
pub filter-DeviceQuery :
    {query : Bytes} (rest output : Bytes)
    → DeviceQuery query
    → filter initial (query ++ rest) output ≡ filter initial rest output
unfolding filter filter_byte is_terminal_query_csi equal starts_with
filter-DeviceQuery rest output (device_query body (inl e) q) = rw (q, e) refl
filter-DeviceQuery rest output (device_query body (inr (inl e)) q) = rw (q, e) refl
filter-DeviceQuery rest output (device_query body (inr (inr (inl e))) q) = rw (q, e) refl
filter-DeviceQuery rest output (device_query body (inr (inr (inr e))) q) = rw (q, e) refl

-- A device-attribute query that the initial filter is given directly behind an ESC is output with
-- that ESC, and leaves the filter as it was.
pub filter-escape-DeviceQuery :
    {query : Bytes} (rest output : Bytes)
    → DeviceQuery query
    → filter initial (escape ∷ query ++ rest) output
      ≡ filter initial rest (output ++ escape ∷ query)
unfolding filter filter_byte
filter-escape-DeviceQuery rest output (device_query body (inl e) q) = rw (q, e) (simp append_assoc)
filter-escape-DeviceQuery rest output (device_query body (inr (inl e)) q) =
    rw (q, e) (simp append_assoc)
filter-escape-DeviceQuery rest output (device_query body (inr (inr (inl e))) q) =
    rw (q, e) (simp append_assoc)
filter-escape-DeviceQuery rest output (device_query body (inr (inr (inr e))) q) =
    rw (q, e) (simp append_assoc)

filter-no_escape :
    (bs output : Bytes)
    → All (λ b. b ≢ escape) bs
    → filter initial bs output ≡ (initial, output ++ bs)
unfolding filter filter_byte
filter-no_escape [] output h = ap (λ bytes. (initial, bytes)) (sym (append-nil output))
filter-no_escape (b ∷ bs) output (n, h) =
    let plain : (b == escape) ≡ false = ground arith in
    rw plain (
      filter-no_escape bs (output ++ b ∷ []) h
      ∙ ap (λ bytes. (initial, bytes)) (append_assoc output (b ∷ []) bs))

-- An ESC that was held back, and bytes that make no sequence of it, come out together.
pub filter-split_escape :
    (b : ℕ) (bs : Bytes)
    → b ≢ b'['
    → b ≢ b']'
    → All (λ b. b ≢ escape) bs
    → filter (filter initial (escape ∷ []) []).0 (b ∷ bs) [] ≡ (initial, escape ∷ b ∷ bs)
unfolding filter filter_byte flush_pending
filter-split_escape b bs n m h =
    let no_csi : (b == b'[') ≡ false = ground arith in
    let no_osc : (b == b']') ≡ false = ground arith in
    rw (no_csi, no_osc) (filter-no_escape bs (escape ∷ b ∷ []) h)
