-- ===== src/Callbacks/Queue.antt =====
-- The bound on the passthrough queue.
use pterm.Common.{
  append_assoc, ◌∙◌, append-nil, sym, ◌≢◌, refl, ltb, some, ◌-◌, false, inl, inr, true, Bool-cases,
  length-append, ap, arith, ℕ, ◌+◌, ◌≤◌, ◌≡◌, List, [], ◌∷◌, ◌++◌, length, Bytes,
}
use pterm.Callbacks.{
  concat_onto, passthrough_sequences_formatted, SessionCallbacks, push_passthrough_sequence,
  over_limit, evict, max_passthrough_sequences, max_passthrough_bytes,
}

abbrev pub total : List Bytes → ℕ
total [] = 0
total (seq ∷ queue) = length seq + total queue

abbrev pub Fits : List Bytes → Type 0
Fits queue = (length queue ≤ max_passthrough_sequences) × (total queue ≤ max_passthrough_bytes)

-- The longest end of `queue` within the limits.
pub record IsLongestFit (queue kept : List Bytes) : Type 0 where
  pub dropped : List Bytes
  pub splits : dropped ++ kept ≡ queue
  pub fits : Fits kept
  pub longest :
      (front back : List Bytes) → front ++ back ≡ queue → Fits back → length back ≤ length kept

total-append : (xs ys : List Bytes) → total (xs ++ ys) ≡ total xs + total ys
total-append [] ys = omega arith
total-append (x ∷ xs) ys = omega (arith, total-append xs ys)

-- The queue and count that `evict` ends with.
pub record Evicted (queue : List Bytes) : Type 0 where
  pub kept : List Bytes
  pub result : evict queue (total queue) ≡ some (kept, total kept)
  pub longest_fit : IsLongestFit queue kept

over_limit-Fits : (queue : List Bytes) → over_limit queue (total queue) ≡ false → Fits queue
over_limit-Fits queue h = ground arith

Fits-over_limit : (queue : List Bytes) → Fits queue → over_limit queue (total queue) ≡ false
Fits-over_limit queue h = ground arith

length-suffix : (front back queue : List Bytes) → front ++ back ≡ queue → length back ≤ length queue
length-suffix front back queue e = omega (arith, ap length e, length-append front back)

-- A count that is the total of the queue never runs below zero, and the queue never runs empty.
pub evict-Evicted : (queue : List Bytes) → Evicted queue
unfolding evict
evict-Evicted [] = record {
  kept = [];
  result = refl;
  longest_fit = record {
    dropped = [];
    splits = refl;
    fits = omega arith;
    longest = λ front back e f. length-suffix front back [] e;
  };
}
evict-Evicted (seq ∷ queue) = elim (Bool-cases (over_limit (seq ∷ queue) (total (seq ∷ queue)))) [
  | inr fits ↦ record {
    kept = seq ∷ queue;
    result = rw fits;
    longest_fit = record {
      dropped = [];
      splits = refl;
      fits = over_limit-Fits (seq ∷ queue) fits;
      longest = λ front back e f. length-suffix front back (seq ∷ queue) e;
    };
  }
  | inl over ↦
      let later = evict-Evicted queue in
      let l = later.longest_fit in
      let rest : length seq + total queue - length seq ≡ total queue = omega arith in
      let enough : ltb (length seq + total queue) (length seq) ≡ false = ground arith in
      record {
        kept = later.kept;
        result = rw (over, enough, rest) later.result;
        longest_fit = record {
          dropped = seq ∷ l.dropped;
          splits = ap (◌∷◌ seq) l.splits;
          fits = l.fits;
          longest = shorter seq queue over l;
        };
      }
]
  where
    shorter :
        (seq : Bytes) (queue : List Bytes) {kept : List Bytes}
        → over_limit (seq ∷ queue) (total (seq ∷ queue)) ≡ true
        → IsLongestFit queue kept
        → (front back : List Bytes) → front ++ back ≡ seq ∷ queue
        → Fits back
        → length back ≤ length kept
    shorter seq queue over l [] back e f = cc (over, rw e at (Fits-over_limit back f))
    shorter seq queue over l (x ∷ front) back e f = l.longest front back (cc) f

-- A non-empty sequence pushed on a queue with a true byte count does not panic; it leaves the
-- longest end of the queue and the sequence that is within both limits, and its size as the count.
pub push_passthrough_sequence-IsLongestFit :
    (seq : Bytes) (callbacks : SessionCallbacks)
    → seq ≢ []
    → callbacks.passthrough_bytes ≡ total callbacks.passthrough_sequences
    → (kept : List Bytes) × (push_passthrough_sequence seq callbacks
        ≡ some (record callbacks { passthrough_sequences = kept; passthrough_bytes = total kept }))
      × IsLongestFit (callbacks.passthrough_sequences ++ seq ∷ []) kept
unfolding push_passthrough_sequence
push_passthrough_sequence-IsLongestFit [] callbacks ne counted = absurd (ne refl)
push_passthrough_sequence-IsLongestFit (b ∷ bs) callbacks ne counted =
    let queue = callbacks.passthrough_sequences ++ (b ∷ bs) ∷ [] in
    let e = evict-Evicted queue in
    let count : callbacks.passthrough_bytes + length (b ∷ bs) ≡ total queue =
      omega (arith, counted, total-append callbacks.passthrough_sequences ((b ∷ bs) ∷ [])) in
    (e.kept, rw (count, e.result), e.longest_fit)

abbrev pub concat : List Bytes → Bytes
concat [] = []
concat (seq ∷ seqs) = seq ++ concat seqs

concat_onto-concat :
    (seqs : List Bytes) (bytes : Bytes) → concat_onto bytes seqs ≡ bytes ++ concat seqs
unfolding concat_onto
concat_onto-concat [] bytes = sym (append-nil bytes)
concat_onto-concat (seq ∷ seqs) bytes = concat_onto-concat seqs _ ∙ simp append_assoc

pub passthrough_sequences_formatted-concat :
    (callbacks : SessionCallbacks)
    → passthrough_sequences_formatted callbacks ≡ concat callbacks.passthrough_sequences
unfolding passthrough_sequences_formatted
passthrough_sequences_formatted-concat callbacks =
    concat_onto-concat callbacks.passthrough_sequences []
