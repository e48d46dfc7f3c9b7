-- ===== src/Tests/Ending.antt =====
-- src/main.rs and src/server.rs together, on a kill.
use pterm.Common.{codes, ◌≡◌, refl, true, false, [], ◌∷◌}
use pterm.Commands.{World, Start, cmd_new, kill}
use pterm.Paths.{Node, socket, socket_filename, session_dir}
use pterm.Commands.Daemon.{bind}
use pterm.Commands.Attach.{session_exists}
use pterm.Paths.Files.{remove_at, create_dir_all, insert_at, node_at, locate}
use pterm.Server.Run.{polled}
use pterm.Session.{still_alive}
use pterm.System.Ending.{look, remove_socket, kill-restarted}
use pterm.Tests.Commands.{world, net}

abbrev killed : World
killed = record world { tree = (kill world (codes "main") world.tree).tree }

abbrev restarted : Start
restarted = record {
  session_name = codes "main";
  sess_dir = session_dir world.env (codes "main");
  command = codes "/bin/sh" ∷ [];
}

-- What the daemon of the new session leaves.
abbrev bound : Node
bound =
    insert_at (codes "s" ∷ codes "main" ∷ []) socket_filename socket
      (cmd_new killed (codes "main" ∷ []) true).tree

-- `main` is killed and made anew.
kill-restarted_example :
    let now = record world { tree = bound } in
    let old_dir = session_dir world.env (codes "main") in
    (look now old_dir [] still_alive ≡ polled [] still_alive)
    × (session_exists now (codes "main") ≡ true)
    × (session_exists (record world { tree = remove_socket now old_dir }) (codes "main") ≡ false)
unfolding kill bind cmd_new node_at locate session_dir remove_at create_dir_all
kill-restarted_example =
    kill-restarted world (codes "main") world.tree net (codes "main" ∷ []) true restarted bound []
      still_alive refl refl refl
