-- ===== src/Session/Writing.antt =====
-- `write_pty` and what reaches the PTY.
use pterm.Common.{
  ◌==◌, Bool-cases, length, take, drop, All, take-append-drop, length-drop, ℕ, suc, ◌≤◌, ◌<◌, ◌≡◌,
  refl, sym, ap, ◌∙◌, inl, inr, false, List, [], ◌∷◌, ◌++◌, append-nil, append_assoc, arith, Bytes,
}
use pterm.Vt.{Vt100}
use pterm.Io.{ok, Write, wrote, interrupted}
use pterm.Session.{Written, write_loop, Session, write_pty}

-- An answer that writes at least one byte, or that is tried again.
abbrev pub IsProgress : Write → Type 0
IsProgress (wrote n) = 0 < n
IsProgress Write.would_block = Unit
IsProgress interrupted = Unit
IsProgress Write.failed = ⊥

abbrev pub count_writes : List Write → ℕ
count_writes [] = 0
count_writes (wrote n ∷ writes) = suc (count_writes writes)
count_writes (_ ∷ writes) = count_writes writes

-- What a write leaves: `rest` has not been written, and is empty after a success.
pub record Accounted (before left : Bytes) (w : Written) : Type 0 where
  pub rest : Bytes
  pub in_order : w.written ++ rest ≡ before ++ left
  pub complete : w.result ≡ ok tt → rest ≡ []

pub write_loop-Accounted :
    (writes : List Write) (left before : Bytes)
    → Accounted before left (write_loop writes left before)
unfolding write_loop
write_loop-Accounted writes [] before = record { rest = []; in_order = refl; complete = λ e. refl }
write_loop-Accounted [] (b ∷ bs) before = record {
  rest = b ∷ bs;
  in_order = refl;
  complete = λ e. cc;
}
write_loop-Accounted (wrote n ∷ writes) (b ∷ bs) before = elim (Bool-cases (n == 0)) [
  | inl none_written ↦
      rw (none_written, write_loop) (record { rest = b ∷ bs; in_order = refl; complete = λ e. cc })
  | inr some_written ↦
      let a = write_loop-Accounted writes (drop n (b ∷ bs)) (before ++ take n (b ∷ bs)) in
      rw (some_written, write_loop)
        (record {
          rest = a.rest;
          in_order =
              a.in_order
              ∙ append_assoc before (take n (b ∷ bs)) (drop n (b ∷ bs))
              ∙ ap (λ t. before ++ t) (take-append-drop n (b ∷ bs));
          complete = a.complete;
        })
]
write_loop-Accounted (Write.would_block ∷ writes) (b ∷ bs) before =
    write_loop-Accounted writes (b ∷ bs) before
write_loop-Accounted (interrupted ∷ writes) (b ∷ bs) before =
    write_loop-Accounted writes (b ∷ bs) before
write_loop-Accounted (Write.failed ∷ writes) (b ∷ bs) before = record {
  rest = b ∷ bs;
  in_order = refl;
  complete = λ e. cc;
}

write_loop-completes :
    (writes : List Write) (left before : Bytes)
    → All IsProgress writes
    → length left ≤ count_writes writes
    → (write_loop writes left before).result ≡ ok tt
unfolding write_loop
write_loop-completes writes [] before p h = refl
write_loop-completes [] (b ∷ bs) before p h = absurd (omega arith)
write_loop-completes (wrote n ∷ writes) (b ∷ bs) before (p, ps) h =
    let nonzero : (n == 0) ≡ false = ground arith in
    rw (nonzero, write_loop)
      (write_loop-completes writes (drop n (b ∷ bs)) (before ++ take n (b ∷ bs)) ps
        (omega (arith, length-drop n (b ∷ bs))))
write_loop-completes (Write.would_block ∷ writes) (b ∷ bs) before (p, ps) h =
    write_loop-completes writes (b ∷ bs) before ps h
write_loop-completes (interrupted ∷ writes) (b ∷ bs) before (p, ps) h =
    write_loop-completes writes (b ∷ bs) before ps h
write_loop-completes (Write.failed ∷ writes) (b ∷ bs) before (p, ps) h = absurd p

module _ (vt : Vt100) where
  -- If no write to the PTY fails and enough of them take at least a byte, write_pty succeeds and
  -- the PTY has received the bytes whole, once and in order behind what it had.
  pub write_pty-writes :
      (bytes : Bytes) (s : Session vt)
      → All IsProgress s.pty.writes
      → length bytes ≤ count_writes s.pty.writes
      → ((write_pty vt bytes s).0 ≡ ok tt)
        × ((write_pty vt bytes s).1.pty.written ≡ s.pty.written ++ bytes)
  unfolding write_pty
  write_pty-writes bytes s p h =
      let done = write_loop-completes s.pty.writes bytes s.pty.written p h in
      let a = write_loop-Accounted s.pty.writes bytes s.pty.written in
      (done, sym (append-nil _) ∙ rw (a.complete done) at a.in_order)
