-- ===== src/Commands.antt =====
-- src/main.rs: the commands. A command gets the environment, the working directory and the tree of the
-- file system, and returns its outcome with the new tree. Messages to stderr are not modelled.
pub mod Args
pub mod Listing
pub mod Daemon
pub mod Attach
pub mod Main
pub mod Wait
pub mod Kill
pub mod New
use pterm.Common.{
  ltb, leb, ◌==◌, if◌then◌else◌, ltb→lt, lt→ltb, leb→le, le→leb, lt→leb, ==_iff, Bool-cases,
  Option-cases, is_byte, is_none, length, get_or, take, drop, All, length-append, take-append-drop,
  length-take, length-drop, take-length-append, drop-length-append, take-append_le, drop-append_le,
  drop-drop, ℤ, pos, negsuc, codes, equal_iff, last, equal, starts_with, ends_with, last_part,
  pop_back-concat, to_string, pop_back, bit_and, bit_or, ℕ, zero, suc, ◌+◌, ◌-◌, ◌*◌, ◌/◌, ◌%◌, ◌^◌,
  ◌≤◌, ◌<◌, ◌≡◌, refl, sym, ap, ap₂, subst, ◌∙◌, ◌≢◌, ◌↔◌, ◌⊎◌, inl, inr, Bool, true, false, not,
  ◌&&◌, ◌||◌, Option, none, some, List, [], ◌∷◌, ◌++◌, append-nil, append_assoc, arith, Bytes,
}
use pterm.Commands.Args.{parse_new, parse_session_name, parse_attach, first_arg, is_empty}
use pterm.Paths.{
  Node, socket, file, dir, Entries, empty, entry, FilePath, join, parent, Env, socket_dir,
  session_dir, session_socket_path, socket_filename, find_sessions, is_socket,
}
use pterm.Paths.Files.{
  insert_at, locate, node_at, remove_at, insert, update, create_dir_all, is_prefix,
}
use pterm.Proto.{encode}
use pterm.Proto.Client

-- How a command ends: it returns `Ok` and has printed some lines, or an I/O error, or it calls
-- `process::exit`.
pub data Outcome : Type 0 where
  finished : List Bytes → Outcome
  io_error : Outcome
  exit : ℤ → Outcome

-- What the daemon is started with.
pub record Start : Type 0 where
  pub session_name : Bytes
  pub sess_dir : FilePath
  pub command : List Bytes

pub record World : Type 0 where
  pub env : Env
  pub cwd : List Bytes
  pub tree : Node

pub record Result : Type 0 where
  pub outcome : Outcome
  pub tree : Node
  pub started : Option Start

abbrev pub stop : Outcome → Node → Result
stop outcome tree = record { outcome = outcome; tree = tree; started = none }

abbrev pub exists : Option Node → Bool
exists none = false
exists (some node) = true

abbrev pub default_command : Env → List Bytes → List Bytes
default_command env [] = elim env.shell [ none ↦ codes "/bin/sh" ∷ [] | some shell ↦ shell ∷ [] ]
default_command env (arg ∷ args) = arg ∷ args

-- `cmd_new` behind the clean-up: `forks` says whether `fork` succeeds. What the parent prints is not
-- modelled.
unfoldable pub new_session : World → Bytes → List Bytes → Bool → Node → Result
new_session world name command forks tree =
    let sess_dir = session_dir world.env name in
    let made = create_dir_all (locate world.cwd sess_dir) tree in
    if exists (node_at (locate world.cwd (join sess_dir socket_filename)) tree)
    then stop (exit (pos 1)) tree
    else elim made [
      | none ↦ stop io_error tree
      | some tree' ↦
          if forks
          then record {
            outcome = finished [];
            tree = tree';
            started = some (record { session_name = name; sess_dir = sess_dir; command = command });
          }
          else stop (exit (pos 1)) tree'
    ]

-- A socket in the place of the session's directory is removed, any other file is an error.
unfoldable pub clean_up : World → Bytes → List Bytes → Bool → Result
unfolding new_session
clean_up world name command forks =
    let path = locate world.cwd (session_dir world.env name) in
    elim (node_at path world.tree) [
      | some socket ↦ new_session world name command forks (remove_at path world.tree)
      | some file ↦ stop (exit (pos 1)) world.tree
      | some (dir readable entries) ↦ new_session world name command forks world.tree
      | none ↦ new_session world name command forks world.tree
    ]

unfoldable pub cmd_new : World → List Bytes → Bool → Result
unfolding clean_up parse_new
cmd_new world args forks =
    let (name, cmd_args) = parse_new true [] [] args in
    if is_empty name
    then stop (exit (pos 1)) world.tree
    else clean_up world name (default_command world.env cmd_args) forks

-- Whether `remove_dir_all` can read all that it is to remove.
unfoldable mutual
  pub is_removable : Node → Bool
  is_removable (dir readable entries) = readable && all_removable entries
  is_removable _ = true

  pub all_removable : Entries → Bool
  all_removable empty = true
  all_removable (entry name node entries) = is_removable node && all_removable entries

unfoldable pub same_path : FilePath → FilePath → Bool
unfolding is_prefix
same_path p q =
    (if p.absolute then q.absolute else not q.absolute)
    && (is_prefix p.parts q.parts && is_prefix q.parts p.parts)

-- What `read_dir` finds at a path; the empty path names nothing.
unfoldable pub read_dir : World → FilePath → Option Node
read_dir world path =
    if not path.absolute && is_prefix path.parts []
    then none
    else node_at (locate world.cwd path) world.tree

-- The loop that removes empty parents up to the socket directory. Each round takes a part of the path,
-- so that the length of the path is enough fuel.
unfoldable pub clean_parents : ℕ → World → FilePath → Bool × Node
unfolding parent same_path read_dir
clean_parents zero world path = (true, world.tree)
clean_parents (suc fuel) world path = elim (parent path) [
  | none ↦ (true, world.tree)
  | some p ↦ elim (same_path p (socket_dir world.env)) [
    | true ↦ (true, world.tree)
    | false ↦ elim (read_dir world p) [
      | some (dir true empty) ↦
          clean_parents fuel (record world { tree = remove_at (locate world.cwd p) world.tree }) p
      | some (dir true (entry name node entries)) ↦ (true, world.tree)
      | some (dir false entries) ↦ (false, world.tree)
      | some socket ↦ (false, world.tree)
      | some file ↦ (false, world.tree)
      | none ↦ (false, world.tree)
    ]
  ]
]

-- `cmd_kill` for a name, where `left` is the tree that a `remove_dir_all` leaves that fails.
unfoldable pub kill : World → Bytes → Node → Result
unfolding is_removable clean_parents
kill world name left =
    let sess_dir = session_dir world.env name in
    let path = locate world.cwd sess_dir in
    let (cleaned, tree) =
      clean_parents (length sess_dir.parts) (record world { tree = remove_at path world.tree })
        sess_dir in
    let killed = codes "Session '" ++ (name ++ codes "' killed") in
    elim (node_at path world.tree) [
      | none ↦ stop (exit (pos 1)) world.tree
      | some (dir readable entries) ↦
          if is_removable (dir readable entries) && not (is_prefix path [])
          then stop (if cleaned then finished (killed ∷ []) else io_error) tree
          else stop io_error left
      | some other ↦ stop io_error left
    ]

unfoldable pub cmd_kill : World → List Bytes → Node → Result
unfolding kill first_arg
cmd_kill world args left = elim (first_arg args) [
  | none ↦ stop (exit (pos 1)) world.tree
  | some name ↦ kill world name left
]
