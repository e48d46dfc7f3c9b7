-- ===== src/Tests/Commands.antt =====
-- src/paths.rs and src/main.rs on a concrete file system.
use pterm.Common.{
  ltb, length, false, codes, equal, ℕ, ◌+◌, ◌≡◌, refl, ◌≢◌, ◌↔◌, true, none, some, List, [], ◌∷◌,
  arith, Bytes,
}
use pterm.Paths.{
  join, Node, socket, dir, Entries, empty, entry, is_socket, find_sessions, path_of,
  session_socket_path, socket_filename, session_dir,
}
use pterm.Paths.Files.{locate, node_at, resolve}
use pterm.Paths.Sessions.{Elem, IsSession}
use pterm.Paths.Find.{find_sessions-IsSession}
use pterm.Commands.{World, cmd_new}
use pterm.Commands.Args.{parse_new}
use pterm.Commands.Wait.{Poll, waiting, missing, wait_for_socket, wait_for_socket-returns}
use pterm.Commands.Daemon.{Listening, succeeds}
use pterm.Commands.New.{cmd_new-no_socket}

abbrev pub session : Entries
session = entry socket_filename socket empty

-- /s has the sessions `main` and `work/api`.
abbrev sessions : Node
sessions = dir true (
    entry (codes "main") (dir true session)
      (entry (codes "work") (dir true (entry (codes "api") (dir true session) empty)) empty))

abbrev pub world : World
world = record {
  env = record {
    pterm_socket_dir = some (codes "/s");
    xdg_runtime_dir = none;
    shell = none;
    uid = 1;
  };
  cwd = [];
  tree = dir true (entry (codes "s") sessions (entry (codes "home") (dir true empty) empty));
}

find_sessions-IsSession_example :
    (names : List Bytes) × (find_sessions (λ name. true) (some sessions) [] ≡ some names)
    × ((name : Bytes)
        → Elem name names
          ↔ IsSession
              (λ name. true)
              []
              (entry (codes "main") (dir true session) (
                entry
                  (codes "work")
                  (dir true (entry (codes "api") (dir true session) empty))
                  empty))
              name)
find_sessions-IsSession_example =
    find_sessions-IsSession (λ name. true) sessions []
      (refl, ((refl, (tt, tt)), ((refl, ((refl, (tt, tt)), tt)), tt))) refl

abbrev poll : ℕ → Poll
poll now = record { found = missing; now = now }

wait_for_socket-returns_example :
    wait_for_socket (1000 + 100) (poll 1000 ∷ poll 1050 ∷ poll 1101 ∷ []) ≢ waiting
wait_for_socket-returns_example =
    wait_for_socket-returns 1000 100 50 (poll 1000) (poll 1050 ∷ poll 1101 ∷ []) (omega arith)
      (omega arith)

cmd_new-no_socket_example :
    is_socket (
      node_at
        (locate world.cwd (session_socket_path world.env (codes "main")))
        (cmd_new world (codes "main/socket" ∷ []) true).tree)
    ≡ false
unfolding parse_new session_socket_path path_of resolve node_at equal locate
cmd_new-no_socket_example =
    cmd_new-no_socket world b'm' (codes "ain") (codes "main/socket" ∷ []) true (λ e. cc) refl refl

-- A session below one that is there.
abbrev pub nested : List Bytes
nested = codes "main/log" ∷ codes "--" ∷ codes "tail" ∷ []

abbrev path_length : List Bytes → ℕ
path_length [] = 0
path_length (part ∷ parts) = 1 + length part + path_length parts

-- An operating system that takes paths of less than 108 bytes for sockets.
abbrev pub net : Listening
net = record {
  binds = λ path. ltb (path_length path.parts) 108;
  permits = true;
  polls = true;
  registers = (true, true);
}

-- The path of its socket is short enough.
nested-succeeds :
    succeeds net (join (session_dir world.env (codes "main/log")) socket_filename) ≡ true
unfolding session_dir join
nested-succeeds = refl
