-- ===== src/Session/Taking.antt =====
-- A PTY that takes what is written to it, and what it has taken.
use pterm.Common.{
  ◌==◌, length, take, drop, All, take-append-drop, length-drop, ◌+◌, ◌≤◌, ◌≡◌, ap, ◌∙◌, false, List,
  [], ◌∷◌, ◌++◌, append-nil, append_assoc, arith, Bytes,
}
use pterm.Io.{ok, Write, wrote, interrupted}
use pterm.Session.{Session, write_loop, write_pty}
use pterm.Session.Writing.{IsProgress, count_writes}
use pterm.Vt.{Vt100}

-- What is left of the answers goes on, and is enough for what is left of the bytes.
pub record Taken (writes : List Write) (bytes : Bytes) (rest : List Write) : Type 0 where
  pub goes_on : All IsProgress rest
  pub enough : count_writes writes ≤ count_writes rest + length bytes

write_loop-Taken :
    (writes : List Write) (bytes before : Bytes)
    → All IsProgress writes
    → length bytes ≤ count_writes writes
    → (rest : List Write) × (write_loop writes bytes before
        ≡ record { result = ok tt; writes = rest; written = before ++ bytes })
      × Taken writes bytes rest
unfolding write_loop
write_loop-Taken writes [] before p h =
    (writes, rw append-nil, record { goes_on = p; enough = omega arith })
write_loop-Taken [] (b ∷ bs) before p h = absurd (omega arith)
write_loop-Taken (wrote n ∷ writes) (b ∷ bs) before (q, p) h =
    let nonzero : (n == 0) ≡ false = ground arith in
    let size = length-drop n (b ∷ bs) in
    let (rest, e, t) =
      write_loop-Taken writes (drop n (b ∷ bs)) (before ++ take n (b ∷ bs)) p
        (omega (arith, size)) in
    (
      rest,
      rw (nonzero, write_loop) (e ∙ rw (append_assoc, take-append-drop n (b ∷ bs))),
      record { goes_on = t.goes_on; enough = omega (arith, size, t.enough) },
    )
write_loop-Taken (Write.would_block ∷ writes) (b ∷ bs) before (q, p) h =
    let (rest, e, t) = write_loop-Taken writes (b ∷ bs) before p h in
    (rest, e, record { goes_on = t.goes_on; enough = t.enough })
write_loop-Taken (interrupted ∷ writes) (b ∷ bs) before (q, p) h =
    let (rest, e, t) = write_loop-Taken writes (b ∷ bs) before p h in
    (rest, e, record { goes_on = t.goes_on; enough = t.enough })
write_loop-Taken (Write.failed ∷ writes) (b ∷ bs) before (q, p) h = absurd q

module _ (vt : Vt100) where
  -- A session behind a write.
  abbrev pub put : List Write → Bytes → Session vt → Session vt
  put rest bytes s = record s {
    pty = record s.pty { writes = rest; written = s.pty.written ++ bytes };
  }

  pub write_pty-put :
      (bytes : Bytes) (s : Session vt)
      → All IsProgress s.pty.writes
      → length bytes ≤ count_writes s.pty.writes
      → (rest : List Write) × (write_pty vt bytes s ≡ (ok tt, put rest bytes s))
        × Taken s.pty.writes bytes rest
  unfolding write_pty
  write_pty-put bytes s p h =
      let (rest, e, t) = write_loop-Taken s.pty.writes bytes s.pty.written p h in
      (
        rest,
        ap
            (λ w. (
              w.result,
              record s { pty = record s.pty { writes = w.writes; written = w.written } },
            ))
            e,
        t,
      )
