-- ===== src/Filter/Account.antt =====
-- What the filter does to a stream of bytes: it keeps all of them, in order, but for whole queries.
use pterm.Common.{
  ℕ, ◌≤◌, ◌≡◌, refl, arith, inl, inr, Bool-cases, Bool, true, false, ◌||◌, ◌&&◌, [], ◌∷◌, ◌++◌,
  append-nil, leb, ltb, ◌==◌, length, length-append, Bytes, ends_with,
}
use pterm.Filter.{
  OutputFilterState, esc, csi, osc, TerminalOutputFilter, Run, initial, escape, bell,
  string_terminator, max_control_sequence_len, is_terminal_query_csi, is_terminal_query_osc,
  flush_pending, flush_if_too_long, finish, filter_byte,
}
use pterm.Filter.Query.{
  TerminalQuery, is_terminal_query_csi-DeviceQuery, is_terminal_query_osc-OscQuery,
}

-- `kept` is `read` without some queries.
pub data Accounts : Bytes → Bytes → Type 0 where
  nothing : Accounts [] []
  keep :
      {read kept : Bytes} (piece : Bytes)
      → Accounts read kept
      → Accounts (read ++ piece) (kept ++ piece)
  drop_query :
      {read kept : Bytes} (query : Bytes)
      → TerminalQuery query
      → Accounts read kept
      → Accounts (read ++ query) kept

-- Between two bytes: nothing is held back on the ground, and what is held back is bounded.
pub record IsWellFormed (f : TerminalOutputFilter) : Type 0 where
  pub ground_empty : f.state ≡ OutputFilterState.ground → f.pending ≡ []
  pub esc_one : f.state ≡ esc → length f.pending ≡ 1
  pub bounded : length f.pending ≤ max_control_sequence_len

pub initial-IsWellFormed : IsWellFormed initial
initial-IsWellFormed = record { ground_empty = λ _. refl; esc_one = λ e. cc; bounded = omega arith }

pub filter_byte-IsWellFormed :
    (s : OutputFilterState) (f : TerminalOutputFilter) (byte : ℕ) (output : Bytes)
    → f.state ≡ s
    → IsWellFormed f
    → IsWellFormed (filter_byte s f byte output).0
unfolding filter_byte
filter_byte-IsWellFormed OutputFilterState.ground f byte output e w = ground arith
filter_byte-IsWellFormed _ f byte output e w = ground (arith, length-append f.pending (byte ∷ []))

-- The filter after `run`, given that `read` accounts for the output before it.
abbrev pub Explains : Bytes → Bytes → Run → Type 0
Explains read rest run =
    (read' : Bytes) × Accounts read' run.1 × (read' ++ run.0.pending ≡ read ++ rest)

flush_pending-Explains :
    {read output : Bytes} (f : TerminalOutputFilter)
    → Accounts read output
    → Explains read f.pending (flush_pending f output)
unfolding flush_pending
flush_pending-Explains {read} f a = (read ++ f.pending, keep f.pending a, append-nil _)

flush_if_too_long-Explains :
    {read output : Bytes} (f : TerminalOutputFilter)
    → Accounts read output
    → Explains read f.pending (flush_if_too_long f output)
unfolding flush_if_too_long
flush_if_too_long-Explains {read} f a =
    elim (Bool-cases (ltb max_control_sequence_len (length f.pending))) [
      | inl long ↦ rw long (flush_pending-Explains f a)
      | inr short ↦ rw short (read, a, refl)
    ]

finish-Explains :
    {read output : Bytes} (is_query : Bool) (f : TerminalOutputFilter)
    → (is_query ≡ true → TerminalQuery f.pending)
    → Accounts read output
    → Explains read f.pending (finish is_query f output)
unfolding finish
finish-Explains {read} true f q a =
    (read ++ f.pending, drop_query f.pending (q refl) a, append-nil _)
finish-Explains {read} false f q a = (read ++ f.pending, keep f.pending a, append-nil _)

pub filter_byte-Explains :
    (s : OutputFilterState) (f : TerminalOutputFilter) (byte : ℕ) {read output : Bytes}
    → f.state ≡ s
    → IsWellFormed f
    → Accounts read output
    → Explains read (f.pending ++ byte ∷ []) (filter_byte s f byte output)
unfolding filter_byte
filter_byte-Explains OutputFilterState.ground f byte {read} e w a =
    elim (Bool-cases (byte == escape)) [
      | inl starts ↦ rw (starts, w.ground_empty e) (read, a, refl)
      | inr plain ↦
          rw plain (read ++ byte ∷ [], keep (byte ∷ []) a, rw (w.ground_empty e, append-nil))
    ]
filter_byte-Explains esc f byte {read} e w a = elim (Bool-cases (byte == b'[')) [
  | inl opens ↦ rw opens (read, a, refl)
  | inr not_csi ↦ elim (Bool-cases (byte == b']')) [
    | inl opens ↦ rw (not_csi, opens) (read, a, refl)
    | inr not_osc ↦
        rw (not_csi, not_osc)
          (flush_pending-Explains (record f { pending = f.pending ++ byte ∷ [] }) a)
  ]
]
filter_byte-Explains csi f byte {read} e w a =
    let f' = record f { pending = f.pending ++ byte ∷ [] } in
    elim (Bool-cases (leb 0x40 byte && leb byte 0x7e)) [
      | inl ends ↦ rw ends (
          finish-Explains (is_terminal_query_csi f'.pending) f'
            (λ h. inl (is_terminal_query_csi-DeviceQuery _ h)) a)
      | inr more ↦ rw more (flush_if_too_long-Explains f' a)
    ]
filter_byte-Explains osc f byte {read} e w a =
    let f' = record f { pending = f.pending ++ byte ∷ [] } in
    elim (Bool-cases (byte == bell || ends_with f'.pending string_terminator)) [
      | inl ends ↦ rw ends (
          finish-Explains (is_terminal_query_osc f'.pending) f'
            (λ h. inr (is_terminal_query_osc-OscQuery _ h)) a)
      | inr more ↦ rw more (flush_if_too_long-Explains f' a)
    ]
