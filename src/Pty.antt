-- ===== src/Pty.antt =====
-- src/pty.rs: the PTY of a session, as the daemon holds it, and `Pty::spawn` in both processes.
--
-- The operating system's answers are arguments. The master side's O_NONBLOCK is not modelled here: the
-- answers `WouldBlock` of Io come from it.
pub mod Files
pub mod Sizing
use pterm.Common.{
  ltb, if◌then◌else◌, ◌==◌, ℕ, Bool, true, false, ◌||◌, Option, none, some, List, [], ◌∷◌, Bytes,
}
use pterm.Io.{Io, ok, err, other, Write}

-- `echo` is the ECHO flag, `none` where `tcgetattr` fails; `resizable` is whether TIOCSWINSZ succeeds.
-- `winsize` is columns and rows.
pub record Pty : Type 0 where
  pub writes : List Write
  pub written : Bytes
  pub echo : Option Bool
  pub resizable : Bool
  pub winsize : ℕ × ℕ

unfoldable pub set_winsize : ℕ → ℕ → Pty → Io Pty
set_winsize cols rows pty =
    if pty.resizable then ok (record pty { winsize = (cols, rows) }) else err other

-- `Pty::resize`.
unfoldable pub resize : ℕ → ℕ → Pty → Io Pty
unfolding set_winsize
resize cols rows pty = set_winsize cols rows pty

-- What a process's descriptor stands for.
pub data File : Type 0 where
  master : File
  slave : File
  opened : ℕ → File

abbrev pub Files : Type 0
Files = ℕ → Option File

abbrev pub close : ℕ → Files → Files
close fd files n = if n == fd then none else files n

abbrev pub open_at : ℕ → File → Files → Files
open_at fd f files n = if n == fd then some f else files n

-- `dup2`, and whether it succeeds, at which the program does not look.
abbrev pub dup2 : Bool → ℕ → ℕ → Files → Files
dup2 true old new files n = if n == new then files old else files n
dup2 false old new files n = files n

-- `openpty` gives the two descriptors, `fork` the child's id. `dups` are the three calls of `dup2`, and
-- `execs` is whether `execvp` succeeds, which then does not return.
pub record Os : Type 0 where
  pub openpty : Option (ℕ × ℕ)
  pub fork : Option ℕ
  pub dups : Bool × Bool × Bool
  pub execs : Bool

pub data Outcome : Type 0 where
  executes : Bytes → List Bytes → Outcome
  exits : ℕ → Outcome
  panics : Outcome

pub data Call : Type 0 where
  setsid : Call
  set_controlling_terminal : ℕ → Call

-- The child once it has left `spawn`.
pub record Child : Type 0 where
  pub calls : List Call
  pub files : Files
  pub outcome : Outcome

-- `Pty` in the parent: the descriptor of the master side, and the child.
pub record Opened : Type 0 where
  pub master_fd : ℕ
  pub child_pid : ℕ
  pub pty : Pty

pub record Spawned : Type 0 where
  pub result : Io Opened
  pub files : Files
  pub child : Option Child

-- `CString::new` fails on these.
unfoldable pub has_nul : Bytes → Bool
has_nul [] = false
has_nul (c ∷ cs) = (c == 0) || has_nul cs

unfoldable pub any_nul : List Bytes → Bool
unfolding has_nul
any_nul [] = false
any_nul (arg ∷ args) = has_nul arg || any_nul args

unfoldable pub exec : Bool → Bytes → List Bytes → Outcome
unfolding any_nul
exec execs cmd args =
    if has_nul cmd || any_nul args then panics else if execs then executes cmd args else exits 127

-- Descriptors 0, 1 and 2, and no other one for the slave side.
unfoldable pub redirect : Bool × Bool × Bool → ℕ → Files → Files
redirect (stdin, stdout, stderr) slave_fd files =
    let files' = dup2 stderr slave_fd 2 (dup2 stdout slave_fd 1 (dup2 stdin slave_fd 0 files)) in
    if ltb 2 slave_fd then close slave_fd files' else files'

unfoldable pub in_child : Os → ℕ → ℕ → Bytes → List Bytes → Files → Child
unfolding redirect exec
in_child os master_fd slave_fd cmd args files = record {
  calls = setsid ∷ set_controlling_terminal slave_fd ∷ [];
  files = redirect os.dups slave_fd (close master_fd files);
  outcome = exec os.execs cmd args;
}

-- What both descriptors are closed by where an error leaves `spawn`.
abbrev give_up : Files → ℕ → ℕ → Spawned
give_up files master_fd slave_fd = record {
  result = err other;
  files = close slave_fd (close master_fd files);
  child = none;
}

-- `Pty::spawn` once the pair is open.
unfoldable pub spawn_on : Os → ℕ → ℕ → Bytes → List Bytes → ℕ → ℕ → Pty → Files → Spawned
unfolding set_winsize in_child
spawn_on os master_fd slave_fd cmd args cols rows pty files = elim (set_winsize cols rows pty) [
  | ok sized ↦ elim os.fork [
    | none ↦ give_up files master_fd slave_fd
    | some child ↦ record {
      result = ok (record { master_fd = master_fd; child_pid = child; pty = sized });
      files = close slave_fd files;
      child = some (in_child os master_fd slave_fd cmd args files);
    }
  ]
  | _ ↦ give_up files master_fd slave_fd
]

unfoldable pub spawn : Os → Bytes → List Bytes → ℕ → ℕ → Pty → Files → Spawned
unfolding spawn_on
spawn os cmd args cols rows pty files = elim os.openpty [
  | none ↦ record { result = err other; files = files; child = none }
  | some (master_fd, slave_fd) ↦
      spawn_on os master_fd slave_fd cmd args cols rows pty
        (open_at slave_fd slave (open_at master_fd master files))
]
