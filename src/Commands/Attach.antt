-- ===== src/Commands/Attach.antt =====
-- src/main.rs: the commands that connect to a session that is there.
use pterm.Paths.Text.{socket_path_text, socket_path_text-path}
use pterm.Paths.{path_of, session_socket_path}
use pterm.Common.{
  ◌∷◌, List, ◌≡◌, refl, if◌then◌else◌, ℤ, pos, Bool, true, false, not, ◌||◌, Option, none, some, [],
  Bytes,
}
use pterm.Commands.{World, Result, Outcome, stop, finished, io_error, exit, exists, cmd_new}
use pterm.Commands.Args.{parse_session_name, parse_attach, first_arg, is_empty}
use pterm.Paths.Files.{locate, node_at}
use pterm.Proto.{encode}
use pterm.Proto.Client

abbrev pub session_exists : World → Bytes → Bool
session_exists world name =
    exists (node_at (locate world.cwd (session_socket_path world.env name)) world.tree)

-- `bridge::run`, which gives the exit code or an I/O error.
abbrev pub attached : Option ℤ → Outcome
attached none = io_error
attached (some code) = exit code

unfoldable pub cmd_attach : World → List Bytes → Option ℤ → Result
unfolding parse_attach
cmd_attach world args bridge =
    let name = parse_attach [] args in
    if is_empty name || not (session_exists world name)
    then stop (exit (pos 1)) world.tree
    else stop (attached bridge) world.tree

-- `cmd_open`, where `waited` is what `wait_for_socket` gives.
abbrev pub opened : Option Bool → Option ℤ → Outcome
opened none bridge = io_error
opened (some false) bridge = exit (pos 1)
opened (some true) bridge = attached bridge

unfoldable pub cmd_open : World → List Bytes → Bool → Option Bool → Option ℤ → Result
unfolding cmd_new parse_session_name
cmd_open world args forks waited bridge = elim (parse_session_name true args) [
  | none ↦ stop (exit (pos 1)) world.tree
  | some name ↦
      let r = cmd_new world args forks in
      if session_exists world name then stop (attached bridge) world.tree else elim r.outcome [
        | finished lines ↦ record r { outcome = opened waited bridge }
        | io_error ↦ r
        | exit code ↦ r
      ]
]

-- `cmd_redraw`, where `sends` says whether the message can be sent, and the message.
unfoldable pub cmd_redraw : World → List Bytes → Bool → Result × Bytes
unfolding first_arg
cmd_redraw world args sends = elim (first_arg args) [
  | none ↦ (stop (exit (pos 1)) world.tree, [])
  | some name ↦
      if session_exists world name
      then if sends
        then (stop (finished []) world.tree, encode Client.redraw [])
        else (stop io_error world.tree, [])
      else (stop (exit (pos 1)) world.tree, [])
]

-- `cmd_socket`
unfoldable pub cmd_socket : World → List Bytes → Result
unfolding first_arg
cmd_socket world args = elim (first_arg args) [
  | none ↦ stop (exit (pos 1)) world.tree
  | some name ↦ stop (finished (socket_path_text world.env name ∷ [])) world.tree
]

-- The line that `socket` prints is the text of the path at which the commands look for the session.
pub cmd_socket-path :
    (world : World) (name : Bytes) (args : List Bytes)
    → (line : Bytes) × (cmd_socket world (name ∷ args) ≡ stop (finished (line ∷ [])) world.tree)
      × (path_of line ≡ session_socket_path world.env name)
unfolding cmd_socket first_arg
cmd_socket-path world name args =
    (socket_path_text world.env name, refl, socket_path_text-path world.env name)
