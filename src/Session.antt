-- ===== src/Session.antt =====
-- src/session.rs, `Session`: a child process behind a PTY, the terminal that mirrors it, and the output
-- filter. The PTY is the answers that the operating system gives, and what has been written to it.
pub mod Reading
pub mod Writing
pub mod Taking
use pterm.Pty
pub use pterm.Pty.{Pty}
use pterm.Common.{
  ltb, leb, ◌==◌, if◌then◌else◌, ltb→lt, lt→ltb, leb→le, le→leb, lt→leb, ==_iff, Bool-cases,
  Option-cases, is_byte, is_none, length, get_or, take, drop, All, length-append, take-append-drop,
  length-take, length-drop, take-length-append, drop-length-append, take-append_le, drop-append_le,
  drop-drop, ℤ, pos, negsuc, codes, equal_iff, last, equal, starts_with, ends_with, last_part,
  pop_back-concat, to_string, pop_back, bit_and, bit_or, ℕ, zero, suc, ◌+◌, ◌-◌, ◌*◌, ◌/◌, ◌%◌, ◌^◌,
  ◌≤◌, ◌<◌, ◌≡◌, refl, sym, ap, ap₂, subst, ◌∙◌, ◌≢◌, ◌↔◌, ◌⊎◌, inl, inr, Bool, true, false, not,
  ◌&&◌, ◌||◌, Option, none, some, List, [], ◌∷◌, ◌++◌, append-nil, append_assoc, arith, Bytes,
}
use pterm.Callbacks
use pterm.Callbacks.{SessionCallbacks, take_pending_da_queries}
use pterm.Filter
use pterm.Filter.{TerminalOutputFilter}
use pterm.Io.{
  ErrorKind, write_zero, other, Io, ok, err, panic, waiting, Write, wrote, interrupted, Read, got,
}
use pterm.Snapshot.{build_snapshot}
use pterm.Vt.{Vt100, handle_events}

abbrev pub default_terminal_cols : ℕ
default_terminal_cols = 80

abbrev pub default_terminal_rows : ℕ
default_terminal_rows = 24

-- `waitpid` with WNOHANG
pub data WaitStatus : Type 0 where
  exited : ℤ → WaitStatus
  signaled : ℕ → WaitStatus
  still_alive : WaitStatus

pub record Session (vt : Vt100) : Type 0 where
  pub pty : Pty
  pub screen : vt.Screen
  pub callbacks : SessionCallbacks
  pub output_filter : TerminalOutputFilter
  pub exited : Option ℤ

pub record Written : Type 0 where
  pub result : Io (Unit {0})
  pub writes : List Write
  pub written : Bytes

-- The loop of `write_pty`: the answers to come, the bytes that are left, and those written so far.
unfoldable pub write_loop : List Write → Bytes → Bytes → Written
write_loop writes [] written = record { result = ok tt; writes = writes; written = written }
write_loop [] (b ∷ bs) written = record { result = waiting; writes = []; written = written }
write_loop (wrote n ∷ writes) (b ∷ bs) written =
    let more = write_loop writes (drop n (b ∷ bs)) (written ++ take n (b ∷ bs)) in
    if n == 0 then record { result = err write_zero; writes = writes; written = written } else more
write_loop (Write.would_block ∷ writes) (b ∷ bs) written = write_loop writes (b ∷ bs) written
write_loop (interrupted ∷ writes) (b ∷ bs) written = write_loop writes (b ∷ bs) written
write_loop (Write.failed ∷ writes) (b ∷ bs) written = record {
  result = err other;
  writes = writes;
  written = written;
}

module _ (vt : Vt100) where
  open vt use {Screen, process, set_size, new, lossy}

  -- `Session::new` on a PTY that `Pty::spawn` has opened at the default size.
  unfoldable pub new_session : Pty → Session vt
  new_session pty = record {
    pty = record pty { winsize = (default_terminal_cols, default_terminal_rows) };
    screen = new default_terminal_rows default_terminal_cols 10_000;
    callbacks = Callbacks.initial;
    output_filter = Filter.initial;
    exited = none;
  }

  -- `read_pty` on a buffer of `buf_len` bytes, for one answer of `read`: the new session, and the bytes
  -- at the front of the buffer, or `none` for `WouldBlock`. The copy back into the buffer panics if
  -- the filtered bytes are more than the buffer holds.
  unfoldable pub read_pty : ℕ → Read → Session vt → Io (Session vt × Option Bytes)
  read_pty buf_len (got []) s = ok (s, some [])
  read_pty buf_len (got (b ∷ bs)) s =
      let (screen, events) = process s.screen (b ∷ bs) in
      let (output_filter, filtered) = Filter.filter s.output_filter (b ∷ bs) [] in
      elim (handle_events lossy events s.callbacks) [
        | none ↦ panic
        | some callbacks ↦
            if ltb buf_len (length filtered)
            then panic
            else ok (
              record s { screen = screen; callbacks = callbacks; output_filter = output_filter },
              some filtered,
            )
      ]
  read_pty buf_len Read.would_block s = ok (s, none)
  read_pty buf_len Read.failed s = err other

  unfoldable pub write_pty : Bytes → Session vt → Io (Unit {0}) × Session vt
  write_pty bytes s =
      let w = write_loop s.pty.writes bytes s.pty.written in
      (w.result, record s { pty = record s.pty { writes = w.writes; written = w.written } })

  -- The PTY first, then the terminal, which takes rows before columns.
  unfoldable pub resize : ℕ → ℕ → Session vt → Io (Session vt)
  unfolding Pty.resize Pty.set_winsize
  resize cols rows s = elim (Pty.resize cols rows s.pty) [
    | ok pty ↦ ok (record s { pty = pty; screen = set_size rows cols s.screen })
    | err e ↦ err e
    | panic ↦ panic
    | waiting ↦ waiting
  ]

  unfoldable pub snapshot : Session vt → Bytes
  snapshot s = build_snapshot vt s.screen s.callbacks

  unfoldable pub take_queries : Session vt → (ℕ × ℕ) × Session vt
  take_queries s =
      let (counts, callbacks) = take_pending_da_queries s.callbacks in
      (counts, record s { callbacks = callbacks })

  -- `check_exit`, where `waitpid` answers `status`. It is not called again once a code is known.
  unfoldable pub check_exit : WaitStatus → Session vt → Option ℤ × Session vt
  check_exit status s = elim s.exited [
    | some code ↦ (some code, s)
    | none ↦ elim status [
      | exited code ↦ (some code, record s { exited = some code })
      | signaled sig ↦ (some (pos (128 + sig)), record s { exited = some (pos (128 + sig)) })
      | still_alive ↦ (none, s)
    ]
  ]
