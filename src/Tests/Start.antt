-- ===== src/Tests/Start.antt =====
-- src/pty.rs, and the daemon from its start, on concrete input.
use pterm.Common.{
  ltb, if◌then◌else◌, pos, codes, ℕ, ◌≡◌, refl, subst, ◌≢◌, ◌⊎◌, true, none, some, [], ◌∷◌,
}
use pterm.Commands.Daemon.{bind}
use pterm.Commands.{World, Start, cmd_new}
use pterm.Io.{ok}
use pterm.Pty.{Os, Files, opened, spawn}
use pterm.Pty.Files.{IsFree, Spawns, spawn-Spawns}
use pterm.Server.{Server, flush_all_clients}
use pterm.Server.Reaped.{IsReaped, run-IsReaped, run-IsOver}
use pterm.Server.Run.{run, polled}
use pterm.Server.Sound.{IsSound}
use pterm.Session.{exited, check_exit, new_session}
use pterm.Server.Broadcast.{flush_pty_output, queue_all}
use pterm.Paths.{session_dir}
use pterm.Paths.Files.{node_at, locate, create_dir_all}
use pterm.System.Serve.{serve, serve-IsSound, new_server}
use pterm.Tests.Commands.{world, nested, net}
use pterm.Tests.Daemon.{recorder, pty, session}

-- The standard descriptors of a daemon.
abbrev pub files : Files
files fd = if ltb fd 3 then some (opened fd) else none

abbrev pub os : Os
os = record { openpty = some (5, 6); fork = some 42; dups = (true, true, true); execs = true }

free : (fds : ℕ × ℕ) → (5, 6) ≡ fds → IsFree fds.0 fds.1 files
free fds e = subst (λ fds. IsFree fds.0 fds.1 files) e ((λ h. cc), refl, refl)

spawn-Spawns_example : Spawns files (spawn os (codes "sh") (codes "sh" ∷ []) 80 24 pty files)
spawn-Spawns_example =
    spawn-Spawns os (codes "sh") (codes "sh" ∷ []) 80 24 pty files (λ m s h. free (m, s) (cc)) refl

abbrev pub start : Server recorder
start = new_server recorder session

abbrev ended : Server recorder
ended = record start { session = record session { exited = some (pos 3) }; exit_sent = true }

run-ended : run recorder (polled [] (exited (pos 3)) ∷ []) start ≡ ok (ended, true)
unfolding run new_server check_exit new_session flush_pty_output flush_all_clients queue_all
run-ended = refl

run-IsReaped_example :
    IsReaped recorder ended
    × ((start.session.exited ≡ none) ⊎ (ended.session.exited ≡ start.session.exited))
unfolding new_server new_session
run-IsReaped_example =
    run-IsReaped recorder (polled [] (exited (pos 3)) ∷ []) start ended true refl run-ended

run-IsOver_example : (ended.session.exited ≢ none) × (ended.clients ≡ [])
run-IsOver_example =
    run-IsOver recorder (polled [] (exited (pos 3)) ∷ []) start ended ((λ e. cc), tt) run-ended

abbrev pub started : Start
started = record {
  session_name = codes "main/log";
  sess_dir = session_dir world.env (codes "main/log");
  command = codes "tail" ∷ [];
}

-- What cmd_new leaves for its daemon.
abbrev pub left : World
left = record world { tree = (cmd_new world nested true).tree }

serves :
    serve recorder os net pty files left started (polled [] (exited (pos 3)) ∷ [])
    ≡ ok (ended, true)
unfolding serve spawn bind create_dir_all locate session_dir cmd_new node_at run check_exit
    new_session flush_pty_output flush_all_clients queue_all
serves = refl

serve-IsSound_example : IsSound recorder ended
serve-IsSound_example =
    serve-IsSound recorder os net pty files left started (polled [] (exited (pos 3)) ∷ []) ended
      true serves
