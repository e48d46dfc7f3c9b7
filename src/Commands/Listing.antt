-- ===== src/Commands/Listing.antt =====
-- src/main.rs, `cmd_list`.
use pterm.Common.{
  ltb, ◌==◌, if◌then◌else◌, Bool, true, false, ◌&&◌, ◌||◌, Option, none, some, List, [], ◌∷◌, Bytes,
}
use pterm.Commands.{World, Result, stop, finished, io_error}
use pterm.Commands.Args.{first_arg, is_empty}
use pterm.Paths.{join, socket_dir, find_sessions}
use pterm.Paths.Files.{locate, node_at}

-- `sort` of strings, by their bytes.
unfoldable pub before : Bytes → Bytes → Bool
before [] ys = true
before (x ∷ xs) [] = false
before (x ∷ xs) (y ∷ ys) = ltb x y || (x == y && before xs ys)

unfoldable pub insert_sorted : Bytes → List Bytes → List Bytes
unfolding before
insert_sorted x [] = x ∷ []
insert_sorted x (y ∷ ys) =
    let rest = insert_sorted x ys in if before x y then x ∷ y ∷ ys else y ∷ rest

unfoldable pub sort : List Bytes → List Bytes
unfolding insert_sorted
sort [] = []
sort (x ∷ xs) = insert_sorted x (sort xs)

abbrev or_empty : Option Bytes → Bytes
or_empty none = []
or_empty (some arg) = arg

unfoldable pub cmd_list : (Bytes → Bool) → World → List Bytes → Result
unfolding first_arg sort
cmd_list to_str world args =
    let prefix = or_empty (first_arg args) in
    let sock_dir = socket_dir world.env in
    let search_dir = if is_empty prefix then sock_dir else join sock_dir prefix in
    elim (find_sessions to_str (node_at (locate world.cwd search_dir) world.tree) prefix) [
      | none ↦ stop io_error world.tree
      | some sessions ↦ stop (finished (sort sessions)) world.tree
    ]
