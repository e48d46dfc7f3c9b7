-- ===== src/Commands/Main.antt =====
-- src/main.rs, `main`: the choice of the command.
use pterm.Common.{if◌then◌else◌, ℤ, pos, codes, equal, Bool, ◌||◌, Option, List, [], ◌∷◌, Bytes}
use pterm.Commands.{World, Result, stop, finished, io_error, exit, cmd_new, cmd_kill}
use pterm.Commands.Attach.{cmd_attach, cmd_open, cmd_redraw, cmd_socket}
use pterm.Commands.Listing.{cmd_list}
use pterm.Paths.{Node}

-- What the operating system and the bridge answer to the commands.
pub record Answers : Type 0 where
  pub to_str : Bytes → Bool
  pub forks : Bool
  pub waited : Option Bool
  pub bridge : Option ℤ
  pub sends : Bool
  pub left : Node

-- An I/O error of a command ends the program with the code 1.
abbrev pub ended : Result → Result
ended r = elim r.outcome [
  | io_error ↦ record r { outcome = exit (pos 1) }
  | finished lines ↦ r
  | exit code ↦ r
]

unfoldable pub dispatch : Answers → World → Bytes → List Bytes → Result
unfolding equal cmd_new cmd_attach cmd_open cmd_list cmd_kill cmd_redraw cmd_socket
dispatch answers world command args =
    if equal command (codes "new")
    then cmd_new world args answers.forks
    else if equal command (codes "attach")
    then cmd_attach world args answers.bridge
    else if equal command (codes "open")
    then cmd_open world args answers.forks answers.waited answers.bridge
    else if equal command (codes "list") || equal command (codes "ls")
    then cmd_list answers.to_str world args
    else if equal command (codes "kill")
    then cmd_kill world args answers.left
    else if equal command (codes "redraw")
    then (cmd_redraw world args answers.sends).0
    else if equal command (codes "socket")
    then cmd_socket world args
    else if equal command (codes "-h")
        || (equal command (codes "--help") || equal command (codes "help"))
    then stop (finished []) world.tree
    else stop (exit (pos 1)) world.tree

-- `main`, on the arguments behind the program's name.
unfoldable pub main : Answers → World → List Bytes → Result
unfolding dispatch
main answers world [] = stop (exit (pos 1)) world.tree
main answers world (command ∷ args) = ended (dispatch answers world command args)
