-- ===== src/Filter.antt =====
-- src/session.rs, `TerminalOutputFilter`: strips from the PTY's output the queries that the attached
-- terminal would answer into the PTY.
pub mod Query
pub mod Account
pub mod Stream
pub mod Osc
use pterm.Common.{
  ℕ, ◌-◌, ◌*◌, Bool, false, not, ◌&&◌, ◌||◌, [], ◌∷◌, ◌++◌, Option, none, some, leb, ltb, ◌==◌,
  if◌then◌else◌, length, take, drop, Bytes, codes, equal, starts_with, ends_with, last, last_part,
}

pub data OutputFilterState : Type 0 where
  ground esc csi osc : OutputFilterState

pub record TerminalOutputFilter : Type 0 where
  pub state : OutputFilterState
  pub pending : Bytes

-- `TerminalOutputFilter::default()`
abbrev pub initial : TerminalOutputFilter
initial = record { state = ground; pending = [] }

abbrev pub max_control_sequence_len : ℕ
max_control_sequence_len = 1024 * 1024

-- ESC, BEL, and the string terminator ESC \
abbrev pub escape : ℕ
escape = 0x1b

abbrev pub bell : ℕ
bell = 0x07

abbrev pub string_terminator : Bytes
string_terminator = escape ∷ b'\\' ∷ []

abbrev pub is_last : ℕ → Bytes → Bool
is_last b seq = elim (last seq) [ none ↦ false | some c ↦ c == b ]

unfoldable pub is_terminal_query_csi : Bytes → Bool
is_terminal_query_csi seq =
    if not (starts_with seq (escape ∷ b'[' ∷ [])) || not (is_last b'c' seq)
    then false
    else let body = take (length seq - 1 - 2) (drop 2 seq) in
      equal body [] || equal body (codes "0") || equal body (codes ">") || equal body (codes ">0")

-- `body` is what stands before the terminator; `None` where there is none.
unfoldable pub osc_end : Bytes → Option ℕ
osc_end seq =
    if ends_with seq string_terminator
    then some (length seq - 2)
    else if is_last bell seq
    then some (length seq - 1)
    else none

unfoldable pub is_terminal_query_osc : Bytes → Bool
is_terminal_query_osc seq =
    if not (starts_with seq (escape ∷ b']' ∷ [])) then false else elim (osc_end seq) [
      | none ↦ false
      | some end ↦ equal (last_part b';' [] (take (end - 2) (drop 2 seq))) (codes "?")
    ]

-- The filter and the output that has been appended to.
abbrev pub Run : Type 0
Run = TerminalOutputFilter × Bytes

unfoldable pub flush_pending : TerminalOutputFilter → Bytes → Run
flush_pending f output = (record { state = ground; pending = [] }, output ++ f.pending)

unfoldable pub flush_if_too_long : TerminalOutputFilter → Bytes → Run
unfolding flush_pending
flush_if_too_long f output =
    if ltb max_control_sequence_len (length f.pending) then flush_pending f output else (f, output)

-- A finished sequence is passed on unless it is a query.
unfoldable pub finish : Bool → TerminalOutputFilter → Bytes → Run
finish is_query f output =
    (record { state = ground; pending = [] }, if not is_query then output ++ f.pending else output)

-- The `match` on the state, for one byte.
unfoldable pub filter_byte : OutputFilterState → TerminalOutputFilter → ℕ → Bytes → Run
unfolding flush_pending flush_if_too_long finish
filter_byte ground f byte output =
    if byte == escape
    then (record { state = esc; pending = byte ∷ [] }, output)
    else (f, output ++ byte ∷ [])
filter_byte esc f byte output =
    let f' = record f { pending = f.pending ++ byte ∷ [] } in
    if byte == b'['
    then (record f' { state = csi }, output)
    else if byte == b']'
    then (record f' { state = osc }, output)
    else flush_pending f' output
filter_byte csi f byte output =
    let f' = record f { pending = f.pending ++ byte ∷ [] } in
    if leb 0x40 byte && leb byte 0x7e
    then finish (is_terminal_query_csi f'.pending) f' output
    else flush_if_too_long f' output
filter_byte osc f byte output =
    let f' = record f { pending = f.pending ++ byte ∷ [] } in
    if byte == bell || ends_with f'.pending string_terminator
    then finish (is_terminal_query_osc f'.pending) f' output
    else flush_if_too_long f' output

unfoldable pub filter : TerminalOutputFilter → Bytes → Bytes → Run
filter f [] output = (f, output)
filter f (byte ∷ input) output =
    let (f', output') = filter_byte f.state f byte output in filter f' input output'
