-- ===== src/Tests/Filter.antt =====
-- src/session.rs, the tests of `TerminalOutputFilter`.
use pterm.Filter.Query.{device_query, DeviceQuery}
use pterm.Filter.Account.{IsWellFormed, Accounts}
use pterm.Filter.Osc.{query_body, filter-query_body}
use pterm.Filter.Stream.{
  filter-escape-DeviceQuery, filter-Accounts, filter-IsWellFormed, filter-DeviceQuery,
}
use pterm.Common.{
  inl, inr, arith, [], ◌∷◌, ◌++◌, ◌≡◌, refl, Bytes, codes, equal, starts_with, ends_with, last_part,
}
use pterm.Filter.{
  OutputFilterState, TerminalOutputFilter, initial, escape, bell, filter, filter_byte,
  is_terminal_query_csi, is_terminal_query_osc, osc_end,
}

abbrev query_input : Bytes
query_input =
    b'a' ∷ escape ∷ codes "]10;?"
    ++ (escape ∷ b'\\' ∷ b'b' ∷ escape ∷ codes "]11;?")
    ++ (bell ∷ b'c' ∷ escape ∷ codes "[c")
    ++ (escape ∷ codes "[>0cd")

strips_queries : filter initial query_input [] ≡ (initial, codes "abcd")
unfolding filter filter_byte is_terminal_query_csi is_terminal_query_osc equal starts_with ends_with
    osc_end last_part
strips_queries = refl

keeps_controls :
    (filter initial (escape ∷ codes "]2;title" ++ (escape ∷ b'\\' ∷ escape ∷ codes "[31mred")) []).1
    ≡ escape ∷ codes "]2;title" ++ (escape ∷ b'\\' ∷ escape ∷ codes "[31mred")
unfolding filter filter_byte is_terminal_query_csi is_terminal_query_osc equal starts_with ends_with
    osc_end last_part
keeps_controls = refl

abbrev holding : TerminalOutputFilter
holding = record { state = OutputFilterState.csi; pending = escape ∷ codes "[>" }

holding-IsWellFormed : IsWellFormed holding
holding-IsWellFormed = record { ground_empty = λ e. cc; esc_one = λ e. cc; bounded = omega arith }

filter-Accounts_example :
    (read : Bytes) × Accounts read (filter holding (codes "0cok") []).1
    × (read ++ (filter holding (codes "0cok") []).0.pending ≡ holding.pending ++ codes "0cok")
filter-Accounts_example = filter-Accounts (codes "0cok") holding holding-IsWellFormed

filter-IsWellFormed_example : IsWellFormed (filter holding (codes "0") (codes "a")).0
filter-IsWellFormed_example = filter-IsWellFormed (codes "0") (codes "a") holding-IsWellFormed

secondary : DeviceQuery (escape ∷ codes "[>c")
secondary = device_query (codes ">") (inr (inr (inl refl))) refl

filter-DeviceQuery_example :
    filter initial ((escape ∷ codes "[>c") ++ codes "ok") [] ≡ filter initial (codes "ok") []
filter-DeviceQuery_example = filter-DeviceQuery (codes "ok") [] secondary

filter-escape-DeviceQuery_example :
    filter initial (escape ∷ (escape ∷ codes "[>c") ++ codes "ok") []
    ≡ filter initial (codes "ok") ([] ++ escape ∷ escape ∷ codes "[>c")
filter-escape-DeviceQuery_example = filter-escape-DeviceQuery (codes "ok") [] secondary

filter-query_body_example :
    filter initial (query_body (codes "10") ++ bell ∷ codes "ok") []
    ≡ filter initial (codes "ok") []
filter-query_body_example =
    filter-query_body (codes "10") (codes "ok") [] (omega arith) (omega arith)
