-- ===== src/Server/Drain.antt =====
-- src/server.rs, `handle_pty_output`: what one event of the PTY adds to the pending output.
use pterm.Common.{
  length, All, length-append, ℕ, ◌+◌, ◌≤◌, ◌≡◌, refl, sym, ap, ◌∙◌, ◌≢◌, ◌⊎◌, inl, inr, some, List,
  [], ◌∷◌, ◌++◌, append-nil, append_assoc, arith, Bytes,
}
use pterm.Io.{Read, got, ok}
use pterm.Vt.{Vt100}
use pterm.Filter.{
  TerminalOutputFilter, OutputFilterState, filter, filter_byte, flush_pending, flush_if_too_long,
  finish,
}
use pterm.Filter.Stream.{filter-append, filter-Accounts}
use pterm.Filter.Account.{IsWellFormed}
use pterm.Session.{Session, read_pty}
use pterm.Session.Reading.{IsValid, read_pty-filter}
use pterm.Bridge.Reading.{reads, concat}
use pterm.Server.Handlers.{drain_pty, pty_buf_len}

-- The output so far stands before what one byte gives.
filter_byte-output :
    (s : OutputFilterState) (f : TerminalOutputFilter) (byte : ℕ) (output : Bytes)
    → filter_byte s f byte output
      ≡ ((filter_byte s f byte []).0, output ++ (filter_byte s f byte []).1)
unfolding filter_byte flush_pending flush_if_too_long finish
filter_byte-output s f byte output = ground (arith, append-nil output)

filter-output :
    (input : Bytes) (f : TerminalOutputFilter) (output : Bytes)
    → filter f input output ≡ ((filter f input []).0, output ++ (filter f input []).1)
unfolding filter
filter-output [] f output = rw append-nil
filter-output (byte ∷ input) f output =
    let one = filter_byte f.state f byte [] in
    let more = filter one.0 input [] in
    ap (λ r. filter r.0 input r.1) (filter_byte-output f.state f byte output)
    ∙ filter-output input one.0 (output ++ one.1)
    ∙ ap (λ o. (more.0, o)) (append_assoc output one.1 more.1)
    ∙ sym (ap (λ r. (r.0, output ++ r.1)) (filter-output input one.0 one.1))

-- What one chunk and then the others give is what they give at once.
filter-chunk :
    (chunk input : Bytes) (f : TerminalOutputFilter) (pending : Bytes)
    → let one = filter f chunk [] in
      let more = filter one.0 input [] in
      let all = filter f (chunk ++ input) [] in
      (more.0 ≡ all.0) × ((pending ++ one.1) ++ more.1 ≡ pending ++ all.1)
filter-chunk chunk input f pending =
    let one = filter f chunk [] in
    let more = filter one.0 input [] in
    let e = filter-append chunk input f [] ∙ filter-output input one.0 one.1 in
    (sym (ap (λ r. r.0) e), append_assoc pending one.1 more.1 ∙ sym (ap (λ r. pending ++ r.1) e))

length-filter_pending :
    (input : Bytes) (f : TerminalOutputFilter)
    → IsWellFormed f
    → length (filter f input []).0.pending ≤ length f.pending + length input
length-filter_pending input f w =
    let (read, a, e) = filter-Accounts input f w in
    omega (
      arith,
      ap length e,
      length-append read (filter f input []).0.pending,
      length-append f.pending input,
    )

List-cases : (xs : Bytes) → (xs ≡ []) ⊎ ((b : ℕ) × (bs : Bytes) × (xs ≡ b ∷ bs))
List-cases [] = inl refl
List-cases (b ∷ bs) = inr (b, bs, refl)

-- The loop comes to the end of the chunks, or stops at a chunk of which the filter outputs nothing.
abbrev pub Stopped : List Read → TerminalOutputFilter → List Bytes → List Bytes → List Read → Type 0
Stopped answers f read left unread =
    ((left ≡ []) × (unread ≡ answers))
    ⊎ ((front : List Bytes) × (chunk : Bytes) × (read ≡ front ++ chunk ∷ [])
        × ((filter (filter f (concat front) []).0 chunk []).1 ≡ [])
        × (unread ≡ reads left (Read.would_block ∷ answers)))

Stopped-cons :
    (answers : List Read) (f f' : TerminalOutputFilter) (chunk : Bytes) (read left : List Bytes)
    (unread : List Read)
    → f' ≡ (filter f chunk []).0
    → Stopped answers f' read left unread
    → Stopped answers f (chunk ∷ read) left unread
Stopped-cons answers f f' chunk read left unread e (inl h) = inl h
Stopped-cons answers f f' chunk read left unread e (inr (front, last, split, silent, h)) =
    let after =
      sym (filter-chunk chunk (concat front) f []).0
      ∙ ap (λ g. (filter g (concat front) []).0) (sym e) in
    inr
      (chunk ∷ front, last, ap (◌∷◌ chunk) split, ap (λ g. (filter g last []).1) after ∙ silent, h)

module _ (vt : Vt100) where
  drain_pty-would_block :
      (answers : List Read) (s : Session vt) (pending : Bytes)
      → drain_pty vt (Read.would_block ∷ answers) s pending
        ≡ ok (record { session = s; pending = pending; unread = answers })
  unfolding drain_pty read_pty
  drain_pty-would_block answers s pending = refl

  drain_pty-stops :
      (answer : Read) (answers : List Read) (s s' : Session vt) (pending : Bytes)
      → read_pty vt pty_buf_len answer s ≡ ok (s', some [])
      → drain_pty vt (answer ∷ answers) s pending
        ≡ ok (record { session = s'; pending = pending; unread = answers })
  unfolding drain_pty
  drain_pty-stops answer answers s s' pending e = rw (e, drain_pty)

  drain_pty-goes_on :
      (answer : Read) (answers : List Read) (s s' : Session vt) (pending : Bytes) (b : ℕ)
      (bs : Bytes)
      → read_pty vt pty_buf_len answer s ≡ ok (s', some (b ∷ bs))
      → drain_pty vt (answer ∷ answers) s pending ≡ drain_pty vt answers s' (pending ++ b ∷ bs)
  unfolding drain_pty
  drain_pty-goes_on answer answers s s' pending b bs e = rw (e, drain_pty)

  -- The chunks that one event reads, and what it makes of them.
  pub record Drained (answers : List Read) (chunks : List Bytes) (s : Session vt) (pending : Bytes)
      : Type 0 where
    pub read : List Bytes
    pub left : List Bytes
    pub split : chunks ≡ read ++ left
    pub last : Session vt
    pub output : Bytes
    pub unread : List Read
    pub result :
        drain_pty vt (reads chunks (Read.would_block ∷ answers)) s pending
        ≡ ok (record { session = last; pending = output; unread = unread })
    pub stays_valid : IsValid vt last
    pub filtered :
        (last.output_filter ≡ (filter s.output_filter (concat read) []).0)
        × (output ≡ pending ++ (filter s.output_filter (concat read) []).1)
    pub stopped : Stopped answers s.output_filter read left unread

  -- From a valid session, where an event gives chunks of some bytes that fit the buffer with what
  -- is held back, and then no more for now: the loop reads some of the chunks from the front, all
  -- of them unless it stops behind a chunk of which the filter outputs nothing, with the others
  -- unread; it returns, the session stays valid, and the pending output has grown by what the
  -- filter gives for the chunks read as one input.
  pub drain_pty-Drained :
      (answers : List Read) (chunks : List Bytes) (s : Session vt) (pending : Bytes)
      → IsValid vt s
      → All (λ chunk. chunk ≢ []) chunks
      → length s.output_filter.pending + length (concat chunks) ≤ pty_buf_len
      → Drained answers chunks s pending
  drain_pty-Drained answers [] s pending v h room = record {
    read = [];
    left = [];
    split = refl;
    last = s;
    output = pending;
    unread = answers;
    result = drain_pty-would_block answers s pending;
    stays_valid = v;
    filtered = unfold filter in (refl, sym (append-nil pending));
    stopped = inl (refl, refl);
  }
  drain_pty-Drained answers (chunk ∷ chunks) s pending v (n, h) room =
      let one = filter s.output_filter chunk [] in
      let shorter = length-filter_pending chunk s.output_filter v.output_filter in
      let (s', e, v', same) =
        read_pty-filter vt pty_buf_len chunk s v
          (omega (arith, room, length-append chunk (concat chunks))) in
      elim (List-cases one.1) [
        | inl none_out ↦ record {
          read = chunk ∷ [];
          left = chunks;
          split = refl;
          last = s';
          output = pending;
          unread = reads chunks (Read.would_block ∷ answers);
          result =
              drain_pty-stops (got chunk) _ s s' pending (e ∙ ap (λ o. ok (s', some o)) none_out);
          stays_valid = v';
          filtered = (
            same ∙ ap (λ i. (filter s.output_filter i []).0) (sym (append-nil chunk)),
            sym (append-nil pending)
                ∙ ap (λ o. pending ++ o)
                    (sym none_out
                      ∙ ap (λ i. (filter s.output_filter i []).1) (sym (append-nil chunk))),
          );
          stopped = unfold filter in inr ([], chunk, refl, none_out, refl);
        }
        | inr (b, bs, out) ↦
            let d = drain_pty-Drained answers chunks s' (pending ++ b ∷ bs) v' h (
              omega (
                arith,
                room,
                shorter,
                length-append chunk (concat chunks),
                ap (λ f. length f.pending) same,
              )) in
            let whole = filter-chunk chunk (concat d.read) s.output_filter pending in
            record {
              read = chunk ∷ d.read;
              left = d.left;
              split = ap (◌∷◌ chunk) d.split;
              last = d.last;
              output = d.output;
              unread = d.unread;
              result =
                  drain_pty-goes_on (got chunk) _ s s' pending b bs
                    (e ∙ ap (λ o. ok (s', some o)) out)
                  ∙ d.result;
              stays_valid = d.stays_valid;
              filtered = (
                d.filtered.0 ∙ ap (λ f. (filter f (concat d.read) []).0) same ∙ whole.0,
                d.filtered.1
                    ∙ ap (λ f. (pending ++ b ∷ bs) ++ (filter f (concat d.read) []).1) same
                    ∙ ap (λ o. (pending ++ o) ++ (filter one.0 (concat d.read) []).1) (sym out)
                    ∙ whole.1,
              );
              stopped =
                  Stopped-cons answers s.output_filter s'.output_filter chunk d.read d.left d.unread
                    same d.stopped;
            }
      ]
