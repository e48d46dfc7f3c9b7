-- ===== src/Tests/Daemon.antt =====
-- src/session.rs, a session on concrete input. The terminal of these tests keeps the bytes that it
-- has processed as its screen.
use pterm.Common.{refl, codes, ◌≡◌, true, false, some, [], ◌∷◌, ◌++◌, arith, Bytes}
use pterm.Callbacks.{SessionCallbacks}
use pterm.Callbacks
use pterm.Callbacks.Invariant.{initial-IsValid}
use pterm.Callbacks.Queue.{concat}
use pterm.Filter
use pterm.Filter.{OutputFilterState, TerminalOutputFilter, escape}
use pterm.Filter.Account.{initial-IsWellFormed}
use pterm.Io.{ok, panic, Write, wrote, got}
use pterm.Session.{Pty, Session, new_session, read_pty, write_pty}
use pterm.Session.Reading.{IsValid, read_pty-IsValid, read_pty-split_escape}
use pterm.Server.Drain.{Drained, drain_pty-Drained}
use pterm.Session.Writing.{write_pty-writes}
use pterm.Snapshot.{build_snapshot}
use pterm.Snapshot.Layout.{build_snapshot-layout, prefix_of, cursor}
use pterm.Vt.{Vt100}

abbrev pub recorder : Vt100
recorder = record {
  Screen = Bytes;
  process = λ screen bytes. (screen ++ bytes, []);
  state_formatted = λ screen. screen;
  alternate_screen = λ screen. false;
  set_size = λ rows cols screen. screen;
  new = λ rows cols scrollback. [];
  lossy = λ bytes. bytes;
}

abbrev pub pty : Pty
pty = record {
  writes = wrote 2 ∷ Write.interrupted ∷ Write.would_block ∷ wrote 1 ∷ wrote 4 ∷ [];
  written = codes "> ";
  echo = some true;
  resizable = true;
  winsize = (80, 24);
}

abbrev pub session : Session recorder
session = new_session recorder pty

session-IsValid : IsValid recorder session
unfolding new_session
session-IsValid = record { callbacks = initial-IsValid; output_filter = initial-IsWellFormed }

read_pty-IsValid_example :
    (s' : Session recorder) × (read_pty recorder 8 (got (codes "ok")) session
      ≡ ok (s', some (Filter.filter session.output_filter (codes "ok") []).1))
    × IsValid recorder s'
unfolding new_session
read_pty-IsValid_example =
    read_pty-IsValid recorder 8 (codes "ok") session session-IsValid (omega arith)

read_pty-split_escape_example :
    (s' : Session recorder) × (read_pty recorder 3 (got (escape ∷ [])) session ≡ ok (s', some []))
    × IsValid recorder s'
    × (read_pty recorder 3 (got (codes "7ab")) s' ≡ panic)
unfolding new_session
read_pty-split_escape_example =
    read_pty-split_escape recorder 3 b'7' (codes "ab") session session-IsValid refl (omega arith)
      (omega arith) (omega arith) refl

write_pty-writes_example :
    ((write_pty recorder (codes "ls") session).0 ≡ ok tt)
    × ((write_pty recorder (codes "ls") session).1.pty.written ≡ session.pty.written ++ codes "ls")
unfolding new_session
write_pty-writes_example =
    write_pty-writes recorder (codes "ls") session (omega arith) (omega arith)

abbrev titled : SessionCallbacks
titled = record Callbacks.initial { window_title = some (codes "vim"); cursor_shape = some 2 }

build_snapshot-layout_example :
    build_snapshot recorder (codes "text") titled
    ≡ prefix_of false titled
      ++ (codes "text" ++ (concat titled.passthrough_sequences ++ cursor titled.cursor_shape))
build_snapshot-layout_example = build_snapshot-layout recorder (codes "text") titled

drain_pty-Drained_example :
    Drained recorder []
      (codes "ok" ∷ (escape ∷ codes "[c") ∷ codes "late" ∷ [])
      session
      (codes "> ")
unfolding new_session
drain_pty-Drained_example =
    drain_pty-Drained recorder [] (codes "ok" ∷ (escape ∷ codes "[c") ∷ codes "late" ∷ []) session
      (codes "> ") session-IsValid ((λ e. cc), ((λ e. cc), ((λ e. cc), tt))) (omega arith)
