-- ===== src/Filter/Query.antt =====
-- The two query tests against a description of the queries by their bytes.
use pterm.Common.{
  ℕ, suc, ◌-◌, ◌≡◌, refl, sym, ap, ◌∙◌, arith, ◌⊎◌, inl, inr, Bool-cases, true, false, [], ◌∷◌,
  ◌++◌, append-nil, append_assoc, ◌||◌, ◌&&◌, leb, subst, Bool, none, some, ◌==◌, ==_iff,
  if◌then◌else◌, length, take, drop, take-append-drop, Bytes, codes, equal, equal_iff, starts_with,
  ends_with, last_part,
}
use pterm.Filter.{
  escape, bell, string_terminator, is_last, is_terminal_query_csi, osc_end, is_terminal_query_osc,
}

-- Device-attribute requests: ESC [ c, ESC [ 0 c, ESC [ > c, ESC [ > 0 c.
pub data DeviceQuery : Bytes → Type 0 where
  device_query :
      {seq : Bytes} (body : Bytes)
      → (body ≡ []) ⊎ (body ≡ codes "0") ⊎ (body ≡ codes ">") ⊎ (body ≡ codes ">0")
      → seq ≡ escape ∷ b'[' ∷ (body ++ b'c' ∷ [])
      → DeviceQuery seq

-- OSC requests: ESC ], a body whose last `;`-separated part is `?`, and BEL or ESC \.
pub data OscQuery : Bytes → Type 0 where
  osc_query :
      {seq : Bytes} (body terminator : Bytes)
      → (body ≡ codes "?") ⊎ ((front : Bytes) × (body ≡ front ++ codes ";?"))
      → (terminator ≡ bell ∷ []) ⊎ (terminator ≡ string_terminator)
      → seq ≡ escape ∷ b']' ∷ (body ++ terminator)
      → OscQuery seq

abbrev pub TerminalQuery : Bytes → Type 0
TerminalQuery seq = DeviceQuery seq ⊎ OscQuery seq

starts_with-two :
    (a b : ℕ) (seq : Bytes)
    → starts_with seq (a ∷ b ∷ []) ≡ true
    → (rest : Bytes) × (seq ≡ a ∷ b ∷ rest)
unfolding starts_with
starts_with-two a b [] h = cc
starts_with-two a b (x ∷ []) h = ground arith
starts_with-two a b (x ∷ y ∷ rest) h = (rest, ground arith)

is_last-split :
    (c : ℕ) (x : ℕ) (seq : Bytes)
    → is_last c (x ∷ seq) ≡ true
    → x ∷ seq ≡ take (length seq) (x ∷ seq) ++ c ∷ []
is_last-split c x [] h = ground arith
is_last-split c x (y ∷ ys) h = ap (◌∷◌ x) (is_last-split c y ys h)

last_part-split :
    (sep : ℕ) (part xs : Bytes)
    → (last_part sep part xs ≡ part ++ xs)
      ⊎ ((front : Bytes) × (part ++ xs ≡ front ++ sep ∷ last_part sep part xs))
unfolding last_part
last_part-split sep part [] = inl (sym (append-nil part))
last_part-split sep part (x ∷ xs) = elim (Bool-cases (x == sep)) [
  | inl cut ↦
      rw (cut, (==_iff x sep).0 cut)
        (elim (last_part-split sep [] xs) [
          | inl whole ↦ inr (part, rw whole)
          | inr (front, e) ↦
              inr (part ++ sep ∷ front, rw append_assoc (ap (λ t. part ++ sep ∷ t) e))
        ])
  | inr on ↦ rw on (elim (last_part-split sep (part ++ x ∷ []) xs) [
    | inl whole ↦ inl (whole ∙ append_assoc part (x ∷ []) xs)
    | inr (front, e) ↦ inr (front, sym (append_assoc part (x ∷ []) xs) ∙ e)
  ])
]

-- The body of a device query, once the two ends are known.
csi_body :
    (body : Bytes)
    → (equal body [] || equal body (codes "0") || equal body (codes ">") || equal body (codes ">0"))
      ≡ true
    → (body ≡ []) ⊎ (body ≡ codes "0") ⊎ (body ≡ codes ">") ⊎ (body ≡ codes ">0")
csi_body body h = ground (
  arith,
  equal_iff body [],
  equal_iff body (codes "0"),
  equal_iff body (codes ">"),
  equal_iff body (codes ">0"),
)

csi_of_rest :
    (rest : Bytes)
    → is_last b'c' (escape ∷ b'[' ∷ rest) ≡ true
    → is_terminal_query_csi (escape ∷ b'[' ∷ rest) ≡ true
    → DeviceQuery (escape ∷ b'[' ∷ rest)
unfolding is_terminal_query_csi starts_with
csi_of_rest [] ends h = cc
csi_of_rest (x ∷ xs) ends h =
    let body = take (length xs) (x ∷ xs) in
    let n : length (escape ∷ b'[' ∷ x ∷ xs) - 1 - 2 ≡ length xs = omega arith in
    device_query body (csi_body body (rw (ends, n) at h))
      (ap (λ t. escape ∷ b'[' ∷ t) (is_last-split b'c' x xs ends))

pub is_terminal_query_csi-DeviceQuery :
    (seq : Bytes) → is_terminal_query_csi seq ≡ true → DeviceQuery seq
unfolding is_terminal_query_csi
is_terminal_query_csi-DeviceQuery seq h = elim (Bool-cases (starts_with seq (escape ∷ b'[' ∷ []))) [
  | inr other ↦ cc (rw other at h)
  | inl starts ↦ elim (Bool-cases (is_last b'c' seq)) [
    | inr other ↦ cc (rw (starts, other) at h)
    | inl ends ↦
        let (rest, e) = starts_with-two _ _ seq starts in
        rw e (csi_of_rest rest (rw e at ends) (rw e at h))
  ]
]

-- The body of an OSC query, from its last part.
osc_body :
    (body : Bytes)
    → equal (last_part b';' [] body) (codes "?") ≡ true
    → (body ≡ codes "?") ⊎ ((front : Bytes) × (body ≡ front ++ codes ";?"))
osc_body body h =
    let asks = (equal_iff (last_part b';' [] body) (codes "?")).0 h in
    elim (last_part-split b';' [] body) [
      | inl whole ↦ inl (sym whole ∙ asks)
      | inr (front, e) ↦ inr (front, e ∙ ap (λ t. front ++ b';' ∷ t) asks)
    ]

and-right : (a : Bool) {b : Bool} → (a && b) ≡ true → b ≡ true
and-right true h = h
and-right false h = cc

-- Where the terminator stands: the body is what `osc_end` leaves between it and the opening.
osc_of_bell :
    (x : ℕ) (xs : Bytes)
    → is_last bell (escape ∷ b']' ∷ x ∷ xs) ≡ true
    → equal
        (last_part b';' [] (take (length (escape ∷ b']' ∷ x ∷ xs) - 1 - 2) (x ∷ xs)))
        (codes "?")
      ≡ true
    → OscQuery (escape ∷ b']' ∷ x ∷ xs)
osc_of_bell x xs ends h =
    let body = take (length xs) (x ∷ xs) in
    let n : length (escape ∷ b']' ∷ x ∷ xs) - 1 - 2 ≡ length xs = omega arith in
    osc_query body (bell ∷ []) (osc_body body (rw n at h)) (inl refl)
      (ap (λ t. escape ∷ b']' ∷ t) (is_last-split bell x xs ends))

osc_of_terminator :
    (rest : Bytes)
    → ends_with (escape ∷ b']' ∷ rest) string_terminator ≡ true
    → equal (last_part b';' [] (take (length (escape ∷ b']' ∷ rest) - 2 - 2) rest)) (codes "?")
      ≡ true
    → OscQuery (escape ∷ b']' ∷ rest)
unfolding ends_with
osc_of_terminator [] ends h = unfold equal in cc
osc_of_terminator (x ∷ []) ends h = unfold equal in cc
osc_of_terminator (x ∷ y ∷ ys) ends h =
    let rest = x ∷ y ∷ ys in
    let body = take (length ys) rest in
    let n : length (escape ∷ b']' ∷ rest) - 2 - 2 ≡ length ys = omega arith in
    let k : length (escape ∷ b']' ∷ rest) - 2 ≡ suc (suc (length ys)) = omega arith in
    let tail : drop (length ys) rest ≡ string_terminator =
      (equal_iff (drop (length ys) rest) string_terminator).0
        (and-right (leb 2 (length (escape ∷ b']' ∷ rest))) (rw k at ends)) in
    osc_query body string_terminator (osc_body body (rw n at h)) (inr refl) (
      ap (λ t. escape ∷ b']' ∷ t)
        (sym (take-append-drop (length ys) rest) ∙ ap (λ t. body ++ t) tail))

osc_of_rest :
    (rest : Bytes)
    → is_terminal_query_osc (escape ∷ b']' ∷ rest) ≡ true
    → OscQuery (escape ∷ b']' ∷ rest)
unfolding is_terminal_query_osc osc_end starts_with
osc_of_rest rest h = elim (Bool-cases (ends_with (escape ∷ b']' ∷ rest) string_terminator)) [
  | inl ends ↦ osc_of_terminator rest ends (rw ends at h)
  | inr other ↦ at_bell rest (rw other at h)
]
  where
    at_bell :
        (rest : Bytes)
        → (elim (if is_last bell (escape ∷ b']' ∷ rest)
            then some (length (escape ∷ b']' ∷ rest) - 1)
            else none) [
              | none ↦ false
              | some end ↦ equal (last_part b';' [] (take (end - 2) rest)) (codes "?")
            ])
          ≡ true
        → OscQuery (escape ∷ b']' ∷ rest)
    at_bell [] h = cc
    at_bell (x ∷ xs) h = elim (Bool-cases (is_last bell (escape ∷ b']' ∷ x ∷ xs))) [
      | inl ends ↦ osc_of_bell x xs ends (rw ends at h)
      | inr other ↦ cc (rw other at h)
    ]

pub is_terminal_query_osc-OscQuery : (seq : Bytes) → is_terminal_query_osc seq ≡ true → OscQuery seq
unfolding is_terminal_query_osc
is_terminal_query_osc-OscQuery seq h = elim (Bool-cases (starts_with seq (escape ∷ b']' ∷ []))) [
  | inr other ↦ cc (rw other at h)
  | inl starts ↦
      let (rest, e) = starts_with-two _ _ seq starts in
      rw e (osc_of_rest rest (subst (λ s. is_terminal_query_osc s ≡ true) e h))
]
