-- ===== src/Commands/New.antt =====
-- src/main.rs, `cmd_new`: a session whose name ends in `/socket`.
use pterm.Common.{
  ◌==◌, Bool-cases, Option-cases, equal, ℕ, ◌≡◌, refl, sym, ap, ◌∙◌, ◌≢◌, inl, inr, Bool, true,
  false, none, some, List, [], ◌∷◌, ◌++◌, append_assoc, Bytes,
}
use pterm.Commands.{World, exists, new_session, clean_up, cmd_new, default_command}
use pterm.Commands.Args.{parse_new}
use pterm.Commands.Kill.{session_path, removed}
use pterm.Paths.Text.{components-append}
use pterm.Paths.{
  Node, socket, file, dir, FilePath, is_dir, is_socket, components, path_of, join, Env, socket_dir,
  session_dir, session_socket_path, socket_filename,
}
use pterm.Paths.Files.{locate, node_at, remove_at, create_dir_all}
use pterm.Paths.Nodes.{create_dir_all-is_dir}

abbrev with_parts : Bool → List Bytes → FilePath
with_parts absolute parts = record { absolute = absolute; parts = parts }

-- The directory of `name/socket` is the socket of `name`.
session_dir-socket :
    (env : Env) (c : ℕ) (cs : Bytes)
    → session_dir env ((c ∷ cs) ++ b'/' ∷ socket_filename) ≡ session_socket_path env (c ∷ cs)
unfolding session_dir session_socket_path join path_of components equal
session_dir-socket env c cs =
    let root = (socket_dir env).parts in
    elim (Bool-cases (c == b'/')) [
      | inl e ↦ rw (e, session_dir) (ap (with_parts true) (components-append [] cs socket_filename))
      | inr e ↦
          rw (e, session_dir)
            (ap (λ ps. with_parts (socket_dir env).absolute (root ++ ps))
                (components-append (c ∷ []) cs socket_filename)
              ∙ ap (with_parts (socket_dir env).absolute) (sym (append_assoc root _ _)))
    ]

dir-no_socket : (n : Node) → is_dir n ≡ true → is_socket (some n) ≡ false
dir-no_socket (dir r es) d = refl
dir-no_socket socket d = cc
dir-no_socket file d = cc

-- Behind a removal at its path, `new_session` leaves no socket there.
new_session-no_socket :
    (world : World) (name : Bytes) (command : List Bytes) (forks : Bool) (tree : Node)
    → node_at (session_path world name) tree ≡ none
    → is_socket (node_at (session_path world name) (new_session world name command forks tree).tree)
      ≡ false
unfolding new_session
new_session-no_socket world name command forks tree gone =
    let path = session_path world name in
    elim (Bool-cases (
      exists
        (node_at (locate world.cwd (join (session_dir world.env name) socket_filename)) tree))) [
          | inl e ↦ rw (e, new_session, gone)
          | inr e ↦ elim (Option-cases (create_dir_all path tree)) [
            | inl f ↦ rw (e, f, new_session, gone)
            | inr (made, f) ↦
                let (n, at, d) = create_dir_all-is_dir path tree made f in
                elim (Bool-cases forks) [
                  | inl y ↦ rw (e, f, new_session, y, at) (dir-no_socket n d)
                  | inr y ↦ rw (e, f, new_session, y, at) (dir-no_socket n d)
                ]
          ]
        ]

clean_up-no_socket :
    (world : World) (name : Bytes) (command : List Bytes) (forks : Bool)
    → session_path world name ≢ []
    → node_at (session_path world name) world.tree ≡ some socket
    → is_socket (node_at (session_path world name) (clean_up world name command forks).tree) ≡ false
unfolding clean_up
clean_up-no_socket world name command forks n at =
    let path = session_path world name in
    rw (at, clean_up)
      (new_session-no_socket world name command forks (remove_at path world.tree)
        (removed path world.tree n))

-- If the socket of a session whose name is not empty stands at a place other than the root, and the
-- name of a new session is that name followed by /socket, then after cmd_new no socket stands
-- there, whether or not the new session starts.
pub cmd_new-no_socket :
    (world : World) (c : ℕ) (cs : Bytes) (args : List Bytes) (forks : Bool)
    → locate world.cwd (session_socket_path world.env (c ∷ cs)) ≢ []
    → node_at (locate world.cwd (session_socket_path world.env (c ∷ cs))) world.tree ≡ some socket
    → (parse_new true [] [] args).0 ≡ (c ∷ cs) ++ b'/' ∷ socket_filename
    → is_socket (
        node_at
          (locate world.cwd (session_socket_path world.env (c ∷ cs)))
          (cmd_new world args forks).tree)
      ≡ false
unfolding cmd_new
cmd_new-no_socket world c cs args forks n at p =
    let same = ap (locate world.cwd) (session_dir-socket world.env c cs) in
    let command = default_command world.env (parse_new true [] [] args).1 in
    let gone =
      clean_up-no_socket world ((c ∷ cs) ++ b'/' ∷ socket_filename) command forks (rw same n)
        (rw same at) in
    rw (← same) (rw (p, cmd_new) gone)
