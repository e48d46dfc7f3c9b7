-- ===== src/Commands/Kill.antt =====
-- src/main.rs, `cmd_kill`: what goes and what stays.
use pterm.Paths.Nodes.{empty_dir-socket}
use pterm.Common.{
  [], ◌≢◌, length, none, ◌∷◌, Bool-cases, Option-cases, ℕ, zero, suc, ◌≡◌, refl, ap, ◌∙◌, ◌⊎◌, inl,
  inr, true, false, some, List, arith, Bytes,
}
use pterm.Commands.{
  is_removable, session_dir, is_prefix, kill, World, read_dir, clean_parents, same_path,
}
use pterm.Paths.{
  path_of, join, Env, session_dir, Node, socket, file, dir, Entries, empty, entry, FilePath, parent,
  socket_dir,
}
use pterm.Paths.Files.{
  remove_at-socket, node_at-remove_at, remove_at-none, is_prefix, locate, node_at, remove_at,
}

Node-cases :
    (n : Node)
    → (n ≡ dir true empty)
      ⊎ ((name : Bytes) × (m : Node) × (es : Entries) × (n ≡ dir true (entry name m es)))
      ⊎ ((es : Entries) × (n ≡ dir false es))
      ⊎ (n ≡ socket)
      ⊎ (n ≡ file)
Node-cases (dir true empty) = inl refl
Node-cases (dir true (entry name m es)) = inr (inl (name, m, es, refl))
Node-cases (dir false es) = inr (inr (inl (es, refl)))
Node-cases socket = inr (inr (inr (inl refl)))
Node-cases file = inr (inr (inr (inr refl)))

read_dir-node_at :
    (world : World) (path : FilePath) (n : Node)
    → read_dir world path ≡ some n
    → node_at (locate world.cwd path) world.tree ≡ some n
unfolding read_dir
read_dir-node_at world path n h = ground arith

-- The trees that `clean_parents` goes through: only empty directories are removed.
module _ (P : Node → Type 0) where
  clean_parents-keeps :
      (removal : (path : List Bytes) (tree : Node)
        → node_at path tree ≡ some (dir true empty)
        → P tree
        → P (remove_at path tree))
      (fuel : ℕ) (world : World) (path : FilePath)
      → P world.tree
      → P (clean_parents fuel world path).1
  unfolding clean_parents
  clean_parents-keeps removal zero world path h = h
  clean_parents-keeps removal (suc fuel) world path h = elim (Option-cases (parent path)) [
    | inl e ↦ rw (e, clean_parents) h
    | inr (p, e) ↦ elim (Bool-cases (same_path p (socket_dir world.env))) [
      | inl root ↦ rw (e, root, clean_parents) h
      | inr below ↦ elim (Option-cases (read_dir world p)) [
        | inl f ↦ rw (e, below, f, clean_parents) h
        | inr (n, f) ↦ elim (Node-cases n) [
          | inl k ↦
              let f' : read_dir world p ≡ some (dir true empty) = f ∙ ap some k in
              rw (e, below, f', clean_parents)
                (clean_parents-keeps removal fuel
                  (record world { tree = remove_at (locate world.cwd p) world.tree }) p
                  (removal (locate world.cwd p) world.tree (read_dir-node_at world p _ f') h))
          | inr (inl (name, m, es, k)) ↦
              let f' : read_dir world p ≡ some (dir true (entry name m es)) = f ∙ ap some k in
              rw (e, below, f', clean_parents) h
          | inr (inr (inl (es, k))) ↦
              let f' : read_dir world p ≡ some (dir false es) = f ∙ ap some k in
              rw (e, below, f', clean_parents) h
          | inr (inr (inr (inl k))) ↦
              let f' : read_dir world p ≡ some socket = f ∙ ap some k in
              rw (e, below, f', clean_parents) h
          | inr (inr (inr (inr k))) ↦
              let f' : read_dir world p ≡ some file = f ∙ ap some k in
              rw (e, below, f', clean_parents) h
        ]
      ]
    ]
  ]

-- Where the session's directory stands.
abbrev pub session_path : World → Bytes → List Bytes
session_path world name = locate world.cwd (session_dir world.env name)

pub removed :
    (path : List Bytes) (tree : Node) → path ≢ [] → node_at path (remove_at path tree) ≡ none
removed [] tree n = absurd (n refl)
removed (p ∷ ps) tree n = node_at-remove_at p ps tree

not_root : (path : List Bytes) → path ≢ [] → is_prefix path [] ≡ false
unfolding is_prefix
not_root [] n = absurd (n refl)
not_root (p ∷ ps) n = refl

-- The tree that is left has a property that the session's removal gives and later removals keep.
module _ (P : Node → Type 0) where
  kill-keeps :
      (removal : (path : List Bytes) (tree : Node)
        → node_at path tree ≡ some (dir true empty)
        → P tree
        → P (remove_at path tree))
      (world : World) (name : Bytes) (left : Node) (es : Entries)
      → session_path world name ≢ []
      → node_at (session_path world name) world.tree ≡ some (dir true es)
      → is_removable (dir true es) ≡ true
      → P (remove_at (session_path world name) world.tree)
      → P (kill world name left).tree
  unfolding kill
  kill-keeps removal world name left es n at r h =
      let sess_dir = session_dir world.env name in
      let path = session_path world name in
      let root = not_root path n in
      let world' : World = record world { tree = remove_at path world.tree } in
      rw (at, r, root, kill)
        (clean_parents-keeps P removal (length sess_dir.parts) world' sess_dir h)

-- Where a session has a directory that can be removed whole and is not the root: after kill nothing
-- stands in its place, and every socket outside it still stands, whichever parents are cleaned up.
pub kill-sockets :
    (world : World) (name : Bytes) (left : Node) (es : Entries) (other : List Bytes)
    → session_path world name ≢ []
    → node_at (session_path world name) world.tree ≡ some (dir true es)
    → is_removable (dir true es) ≡ true
    → is_prefix (session_path world name) other ≡ false
    → node_at other world.tree ≡ some socket
    → (node_at (session_path world name) (kill world name left).tree ≡ none)
      × (node_at other (kill world name left).tree ≡ some socket)
kill-sockets world name left es other n at r apart s =
    let path = session_path world name in
    (
      kill-keeps (λ t. node_at path t ≡ none) (λ q tree e h. remove_at-none q path tree h) world
          name left es n at r (removed path world.tree n),
      kill-keeps (λ t. node_at other t ≡ some socket)
          (λ q tree e h. elim (Bool-cases (is_prefix q other)) [
            | inl above ↦ absurd (empty_dir-socket q other true tree above e h)
            | inr beside ↦ remove_at-socket q other tree beside h
          ])
          world name left es n at r (remove_at-socket path other world.tree apart s),
    )

session_dir-absolute : (env : Env) (cs : Bytes) → session_dir env (b'/' ∷ cs) ≡ path_of (b'/' ∷ cs)
unfolding session_dir join
session_dir-absolute env cs = refl

-- For a name that starts with a slash, kill removes the directory at that absolute path, wherever
-- the socket directory is, if it can be removed whole and is not the root.
pub kill-absolute :
    (world : World) (cs : Bytes) (left : Node) (es : Entries)
    → locate world.cwd (path_of (b'/' ∷ cs)) ≢ []
    → node_at (locate world.cwd (path_of (b'/' ∷ cs))) world.tree ≡ some (dir true es)
    → is_removable (dir true es) ≡ true
    → node_at (locate world.cwd (path_of (b'/' ∷ cs))) (kill world (b'/' ∷ cs) left).tree ≡ none
unfolding session_dir join
kill-absolute world cs left es n at r =
    let path = locate world.cwd (path_of (b'/' ∷ cs)) in
    kill-keeps (λ t. node_at path t ≡ none) (λ q tree e h. remove_at-none q path tree h) world
      (b'/' ∷ cs) left es n at r (removed path world.tree n)
