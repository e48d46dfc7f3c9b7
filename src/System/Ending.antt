-- ===== src/System/Ending.antt =====
-- src/main.rs, cmd_kill, and src/server.rs, the look at the socket path: a kill ends its daemon and no other.
use pterm.Common.{
  sym, Bool, subst, if◌then◌else◌, ◌≡◌, refl, ap, true, false, none, some, List, [], ◌∷◌, ◌++◌,
  Bytes,
}
use pterm.Commands.{World, kill, Start, cmd_new, exists}
use pterm.Commands.Daemon.{locate-socket, Listening, bind, cmd_new-bound}
use pterm.Commands.Attach.{session_exists}
use pterm.Paths.{
  session_socket_path, Node, socket, dir, FilePath, is_socket, join, session_dir, socket_filename,
}
use pterm.Paths.Files.{remove_at, node_at-remove_at, locate, node_at}
use pterm.Server.{Server}
use pterm.Server.Run.{Round, Event, polled, path_missing}
use pterm.Session.{WaitStatus}

-- The round of a daemon that looks for its socket in a tree, and then polls.
unfoldable pub look : World → FilePath → List Event → WaitStatus → Round
look world sess_dir events status =
    if is_socket (node_at (locate world.cwd (join sess_dir socket_filename)) world.tree)
    then polled events status
    else path_missing

-- The removal of the socket when the loop has ended, and again when the server is dropped: of what
-- stands at the path, unless it is a directory.
unfoldable pub remove_socket : World → FilePath → Node
remove_socket world sess_dir =
    let path = locate world.cwd (join sess_dir socket_filename) in
    elim (node_at path world.tree) [
      | none ↦ world.tree
      | some (dir readable entries) ↦ world.tree
      | some other ↦ remove_at path world.tree
    ]

look-polled :
    (world : World) (sess_dir : FilePath) (events : List Event) (status : WaitStatus)
    → node_at (locate world.cwd (join sess_dir socket_filename)) world.tree ≡ some socket
    → look world sess_dir events status ≡ polled events status
unfolding look
look-polled world sess_dir events status h = rw h refl

node_at-remove_last :
    (path : List Bytes) (name : Bytes) (tree : Node)
    → node_at (path ++ name ∷ []) (remove_at (path ++ name ∷ []) tree) ≡ none
node_at-remove_last [] name tree = node_at-remove_at name [] tree
node_at-remove_last (p ∷ path) name tree = node_at-remove_at p (path ++ name ∷ []) tree

remove_socket-gone :
    (world : World) (sess_dir : FilePath)
    → node_at (locate world.cwd (join sess_dir socket_filename)) world.tree ≡ some socket
    → node_at (locate world.cwd (join sess_dir socket_filename)) (remove_socket world sess_dir)
      ≡ none
unfolding remove_socket
remove_socket-gone world sess_dir h =
    rw (h, remove_socket)
      (subst (λ path. node_at path (remove_at path world.tree) ≡ none)
        (sym (locate-socket world.cwd sess_dir))
        (node_at-remove_last (locate world.cwd sess_dir) socket_filename world.tree))

-- Where a session is killed, cmd_new starts one of the same name in the tree that kill leaves, and
-- its daemon has made its socket: a round of the old daemon that comes then takes that socket for
-- its own and polls; the session exists, and no more once the old daemon has removed the socket at
-- its end.
pub kill-restarted :
    (world : World) (name : Bytes) (left : Node) (net : Listening) (args : List Bytes)
    (forks : Bool) (start : Start) (tree : Node) (events : List Event) (status : WaitStatus)
    → let killed = record world { tree = (kill world name left).tree } in
      let r = cmd_new killed args forks in
      r.started ≡ some start
      → start.session_name ≡ name
      → bind net (record world { tree = r.tree }) start.sess_dir ≡ some tree
      → let now = record world { tree = tree } in
        let old_dir = session_dir world.env name in
        (look now old_dir events status ≡ polled events status)
        × (session_exists now name ≡ true)
        × (session_exists (record world { tree = remove_socket now old_dir }) name ≡ false)
unfolding session_socket_path session_dir
kill-restarted world name left net args forks start tree events status started named bound =
    let killed : World = record world { tree = (kill world name left).tree } in
    let stands =
      subst
        (λ n.
          node_at (locate world.cwd (join (session_dir world.env n) socket_filename)) tree
          ≡ some socket)
        named (cmd_new-bound net killed args forks start tree started bound) in
    let now : World = record world { tree = tree } in
    (
      look-polled now (session_dir world.env name) events status stands,
      ap exists stands,
      ap exists (remove_socket-gone now (session_dir world.env name) stands),
    )
