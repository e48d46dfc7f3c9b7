-- ===== src/Paths.antt =====
-- src/paths.rs: the socket directory, the paths of sessions, and the search for sessions.
--
-- A file system is a tree of nodes without symbolic links. A path is the list of its names; `.` and
-- empty names are dropped, as `Path::components` drops them.
pub mod Sessions
pub mod Find
pub mod Files
pub mod Text
pub mod Nodes
use pterm.Common.{
  ltb, leb, ◌==◌, if◌then◌else◌, ltb→lt, lt→ltb, leb→le, le→leb, lt→leb, ==_iff, Bool-cases,
  Option-cases, is_byte, is_none, length, get_or, take, drop, All, length-append, take-append-drop,
  length-take, length-drop, take-length-append, drop-length-append, take-append_le, drop-append_le,
  drop-drop, ℤ, pos, negsuc, codes, equal_iff, last, equal, starts_with, ends_with, last_part,
  pop_back-concat, to_string, pop_back, bit_and, bit_or, ℕ, zero, suc, ◌+◌, ◌-◌, ◌*◌, ◌/◌, ◌%◌, ◌^◌,
  ◌≤◌, ◌<◌, ◌≡◌, refl, sym, ap, ap₂, subst, ◌∙◌, ◌≢◌, ◌↔◌, ◌⊎◌, inl, inr, Bool, true, false, not,
  ◌&&◌, ◌||◌, Option, none, some, List, [], ◌∷◌, ◌++◌, append-nil, append_assoc, arith, Bytes,
}

-- A node that is no directory is a socket or another file. A directory says whether `read_dir`
-- succeeds, and has its entries in the order of `read_dir`.
mutual
  pub data Node : Type 0 where
    socket : Node
    file : Node
    dir : Bool → Entries → Node

  pub data Entries : Type 0 where
    empty : Entries
    entry : Bytes → Node → Entries → Entries

abbrev pub is_dir : Node → Bool
is_dir (dir readable entries) = true
is_dir _ = false

abbrev pub is_socket : Option Node → Bool
is_socket (some socket) = true
is_socket _ = false

unfoldable pub lookup : Bytes → Entries → Option Node
unfolding equal
lookup name empty = none
lookup name (entry other node entries) =
    let rest = lookup name entries in if equal other name then some node else rest

-- The entry of a node; a node that is no directory has none.
unfoldable pub child : Bytes → Node → Option Node
unfolding lookup
child name (dir readable entries) = lookup name entries
child name _ = none

abbrev pub socket_filename : Bytes
socket_filename = codes "socket"

pub record FilePath : Type 0 where
  pub absolute : Bool
  pub parts : List Bytes

-- The names between the slashes, but for empty ones and `.`.
unfoldable pub components : Bytes → Bytes → List Bytes
unfolding equal
components part [] = if equal part [] || equal part (codes ".") then [] else part ∷ []
components part (c ∷ cs) =
    let rest = components [] cs in
    let more = components (part ++ c ∷ []) cs in
    if c == b'/'
    then (if equal part [] || equal part (codes ".") then rest else part ∷ rest)
    else more

abbrev pub is_absolute : Bytes → Bool
is_absolute [] = false
is_absolute (c ∷ cs) = c == b'/'

unfoldable pub path_of : Bytes → FilePath
unfolding components
path_of name = record { absolute = is_absolute name; parts = components [] name }

-- `Path::join`: an absolute name takes the place of the path.
unfoldable pub join : FilePath → Bytes → FilePath
unfolding path_of
join path name =
    if is_absolute name
    then path_of name
    else record path { parts = path.parts ++ components [] name }

-- `Path::parent`
unfoldable pub parent : FilePath → Option FilePath
unfolding pop_back
parent path = elim (pop_back path.parts) [
  | none ↦ none
  | some (rest, last) ↦ some (record path { parts = rest })
]

-- The environment variables that the program reads, and the user id.
pub record Env : Type 0 where
  pub pterm_socket_dir : Option Bytes
  pub xdg_runtime_dir : Option Bytes
  pub shell : Option Bytes
  pub uid : ℕ

unfoldable pub socket_dir : Env → FilePath
unfolding join path_of
socket_dir env = elim env.pterm_socket_dir [
  | some name ↦ path_of name
  | none ↦ elim env.xdg_runtime_dir [
    | some runtime_dir ↦ join (path_of runtime_dir) (codes "pterm")
    | none ↦ path_of (codes "/tmp/pterm-" ++ to_string env.uid)
  ]
]

unfoldable pub session_dir : Env → Bytes → FilePath
unfolding socket_dir
session_dir env session_name = join (socket_dir env) session_name

unfoldable pub session_socket_path : Env → Bytes → FilePath
unfolding socket_dir
session_socket_path env session_name = join (join (socket_dir env) session_name) socket_filename

abbrev pub full_name : Bytes → Bytes → Bytes
full_name [] name = name
full_name (c ∷ cs) name = c ∷ cs ++ (b'/' ∷ name)

-- What a directory and its entries give; `none` is an I/O error, which ends the whole search.
abbrev pub and_then : List Bytes → Option (List Bytes) → Option (List Bytes) → Option (List Bytes)
and_then here (some children) (some rest) = some (here ++ (children ++ rest))
and_then here _ _ = none

-- `find_sessions` over a directory that exists, where `to_str` says which file names are valid UTF-8.
module _ (to_str : Bytes → Bool) where
  -- An entry that is not looked into.
  abbrev pub is_skipped : Bytes → Bool
  is_skipped name = not (to_str name) || equal name socket_filename

  unfoldable mutual
    unfolding equal child

    pub find_in : Bytes → Node → Option (List Bytes)
    find_in prefix (dir true entries) = find_entries prefix entries
    find_in prefix _ = none

    pub find_entries : Bytes → Entries → Option (List Bytes)
    find_entries prefix empty = some []
    find_entries prefix (entry name node entries) =
        let full = full_name prefix name in
        let rest = find_entries prefix entries in
        let children = find_in full node in
        let here = if is_socket (child socket_filename node) then full ∷ [] else [] in
        if is_skipped name || not (is_dir node) then rest else and_then here children rest

  -- `find_sessions`; a base that does not exist has no sessions.
  unfoldable pub find_sessions : Option Node → Bytes → Option (List Bytes)
  unfolding find_in
  find_sessions none prefix = some []
  find_sessions (some base) prefix = find_in prefix base
