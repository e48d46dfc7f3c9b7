-- ===== src/Filter/Osc.antt =====
-- src/session.rs, `TerminalOutputFilter`: a whole OSC query is removed.
use pterm.Common.{
  ltb, leb, ◌==◌, length, take, All, length-append, take-length-append, drop-length-append, codes,
  last, equal, starts_with, ends_with, last_part, ℕ, ◌+◌, ◌-◌, ◌≤◌, ◌≡◌, refl, sym, ap, ◌∙◌, ◌≢◌,
  true, false, ◌&&◌, Option, none, some, [], ◌∷◌, ◌++◌, append_assoc, arith, Bytes,
}
use pterm.Filter.{
  Run, flush_if_too_long, finish, OutputFilterState, initial, escape, bell, string_terminator,
  max_control_sequence_len, is_last, osc_end, is_terminal_query_osc, filter_byte, filter,
}

-- A byte that ends no OSC sequence.
abbrev pub IsPlain : ℕ → Type 0
IsPlain b = (b ≢ bell) × (b ≢ escape)

ends_with-snoc :
    (q : Bytes) (a b : ℕ)
    → ends_with (q ++ a ∷ b ∷ []) string_terminator ≡ (a == escape) && ((b == b'\\') && true)
unfolding ends_with equal
ends_with-snoc q a b =
    let n : length (q ++ a ∷ b ∷ []) ≡ length q + 2 = length-append q (a ∷ b ∷ []) in
    let m : length q + 2 - 2 ≡ length q = omega arith in
    let fits : leb 2 (length q + 2) ≡ true = ground arith in
    rw (n, m, fits, drop-length-append q (a ∷ b ∷ []))

last-append : (q : Bytes) (b : ℕ) → last (q ++ b ∷ []) ≡ some b
last-append [] b = refl
last-append (x ∷ []) b = refl
last-append (x ∷ y ∷ q) b = last-append (y ∷ q) b

last_part-append :
    (xs part ys : Bytes) → last_part b';' part (xs ++ b';' ∷ ys) ≡ last_part b';' [] ys
unfolding last_part
last_part-append [] part ys = refl
last_part-append (x ∷ xs) part ys = last_part-append xs _ ys

osc_byte :
    (p output : Bytes) (b : ℕ)
    → (b == bell) ≡ false
    → ends_with (p ++ b ∷ []) string_terminator ≡ false
    → ltb max_control_sequence_len (length (p ++ b ∷ [])) ≡ false
    → filter_byte OutputFilterState.osc
        (record { state = OutputFilterState.osc; pending = p })
        b
        output
      ≡ (record { state = OutputFilterState.osc; pending = p ++ b ∷ [] }, output)
unfolding filter_byte flush_if_too_long
osc_byte p output b not_bell goes_on short = rw (not_bell, goes_on, short)

-- The filter reads plain bytes of an OSC sequence within the limit.
filter-plain :
    (bs q : Bytes) (a : ℕ) (rest output : Bytes)
    → All IsPlain bs
    → a ≢ escape
    → length q + 1 + length bs ≤ max_control_sequence_len
    → filter (record { state = OutputFilterState.osc; pending = q ++ a ∷ [] }) (bs ++ rest) output
      ≡ filter (record { state = OutputFilterState.osc; pending = q ++ a ∷ bs }) rest output
unfolding filter
filter-plain [] q a rest output h n l = refl
filter-plain (b ∷ bs) q a rest output ((nb, ne), h) n l =
    let joined : (q ++ a ∷ []) ++ b ∷ [] ≡ q ++ a ∷ b ∷ [] = append_assoc q (a ∷ []) (b ∷ []) in
    let size : length ((q ++ a ∷ []) ++ b ∷ []) ≡ length q + 2 =
      ap length joined ∙ length-append q (a ∷ b ∷ []) in
    let goes_on : ends_with ((q ++ a ∷ []) ++ b ∷ []) string_terminator ≡ false =
      ap (λ p. ends_with p string_terminator) joined ∙ ends_with-snoc q a b ∙ ground arith in
    let not_bell : (b == bell) ≡ false = ground arith in
    let short : ltb max_control_sequence_len (length ((q ++ a ∷ []) ++ b ∷ [])) ≡ false =
      ap (ltb max_control_sequence_len) size ∙ ground arith in
    let room : length (q ++ a ∷ []) + 1 + length bs ≤ max_control_sequence_len =
      omega (arith, length-append q (a ∷ [])) in
    ap (λ (run : Run). filter run.0 (bs ++ rest) run.1)
      (osc_byte (q ++ a ∷ []) output b not_bell goes_on short)
    ∙ filter-plain bs (q ++ a ∷ []) b rest output h ne room
    ∙ ap (λ p. filter (record { state = OutputFilterState.osc; pending = p }) rest output)
        (append_assoc q (a ∷ []) (b ∷ bs))

-- What a query is up to its terminator.
abbrev pub query_body : Bytes → Bytes
query_body front = escape ∷ b']' ∷ (front ++ b';' ∷ b'?' ∷ [])

osc_end-query_body :
    (front : Bytes)
    → osc_end (query_body front ++ bell ∷ []) ≡ some (length (query_body front ++ bell ∷ []) - 1)
unfolding osc_end
osc_end-query_body front =
    let q : Bytes = escape ∷ b']' ∷ (front ++ b';' ∷ []) in
    let split : query_body front ++ bell ∷ [] ≡ q ++ b'?' ∷ bell ∷ [] =
      ap (λ t. escape ∷ b']' ∷ t)
        (append_assoc front (b';' ∷ b'?' ∷ []) (bell ∷ [])
          ∙ sym (append_assoc front (b';' ∷ []) (b'?' ∷ bell ∷ []))) in
    let goes_on : ends_with (query_body front ++ bell ∷ []) string_terminator ≡ false =
      ap (λ p. ends_with p string_terminator) split ∙ ends_with-snoc q b'?' bell in
    let ends : is_last bell (query_body front ++ bell ∷ []) ≡ true =
      ap (λ (o : Option ℕ). elim o [ none ↦ false | some c ↦ c == bell ])
        (last-append (query_body front) bell) in
    rw (goes_on, ends)

is_terminal_query_osc-query_body :
    (front : Bytes) → is_terminal_query_osc (query_body front ++ bell ∷ []) ≡ true
unfolding is_terminal_query_osc starts_with equal last_part
is_terminal_query_osc-query_body front =
    let body : Bytes = front ++ codes ";?" in
    let n : length (query_body front ++ bell ∷ []) - 1 - 2 ≡ length body =
      omega (arith, length-append (query_body front) (bell ∷ [])) in
    rw (osc_end-query_body front) (
      ap (λ n. equal (last_part b';' [] (take n (body ++ bell ∷ []))) (codes "?")) n
      ∙ ap (λ t. equal (last_part b';' [] t) (codes "?")) (take-length-append body (bell ∷ []))
      ∙ ap (λ t. equal t (codes "?")) (last_part-append front [] (codes "?")))

body-IsPlain : (front : Bytes) → All IsPlain front → All IsPlain (front ++ codes ";?")
body-IsPlain [] h = omega arith
body-IsPlain (b ∷ front) (p, h) = (p, body-IsPlain front h)

-- The bell behind a query, after which nothing is held back.
osc_bell :
    (front output : Bytes)
    → filter_byte OutputFilterState.osc
        (record { state = OutputFilterState.osc; pending = query_body front })
        bell
        output
      ≡ (initial, output)
unfolding filter_byte finish
osc_bell front output = rw (is_terminal_query_osc-query_body front)

-- An OSC query that the initial filter is given, of ESC ], bytes that are neither BEL nor ESC, ;?
-- and BEL, within the limit on a control sequence, is removed, whatever follows it, and leaves the
-- filter as it was.
pub filter-query_body :
    (front rest output : Bytes)
    → All IsPlain front
    → length front + 4 ≤ max_control_sequence_len
    → filter initial (query_body front ++ bell ∷ rest) output ≡ filter initial rest output
unfolding filter filter_byte
filter-query_body front rest output h l =
    filter-plain (front ++ codes ";?") (escape ∷ []) b']' (bell ∷ rest) output
      (body-IsPlain front h) (omega arith) (omega (arith, length-append front (codes ";?")))
    ∙ ap (λ (run : Run). filter run.0 rest run.1) (osc_bell front output)
