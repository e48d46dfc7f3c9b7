-- ===== src/Commands/Daemon.antt =====
-- src/server.rs, `Server::new`: what the daemon makes in the file system, and finds made.
use pterm.Common.{
  ◌&&◌, if◌then◌else◌, Bool-cases, Option-cases, codes, equal, ◌≡◌, refl, sym, ap, subst, ◌∙◌, inl,
  inr, Bool, true, false, Option, none, some, List, [], ◌∷◌, ◌++◌, append_assoc, Bytes,
}
use pterm.Commands.{World, Result, Start, new_session, clean_up, cmd_new, default_command}
use pterm.Commands.Args.{parse_new, is_empty}
use pterm.Paths.{Node, socket, file, dir, FilePath, socket_filename, session_dir, join, components}
use pterm.Paths.Files.{insert_at, locate, node_at, remove_at, create_dir_all, resolve, drop_last}
use pterm.Paths.Nodes.{TakesSocket, create_dir_all-TakesSocket}

-- What the operating system answers to `Server::new` beyond what the tree decides: whether it binds a
-- socket at a path that is free, which it does not if the path is too long, sets its mode, makes a
-- poll, and registers the listener and then the PTY.
pub record Listening : Type 0 where
  pub binds : FilePath → Bool
  pub permits : Bool
  pub polls : Bool
  pub registers : Bool × Bool

-- The calls behind the removal of an old file, in their order.
abbrev pub succeeds : Listening → FilePath → Bool
succeeds os path = os.binds path && (os.permits && (os.polls && (os.registers.0 && os.registers.1)))

-- `Server::new`: the daemon makes its socket, in place of a file that stands there. `none` is an I/O
-- error.
unfoldable pub bind : Listening → World → FilePath → Option Node
bind os world sess_dir =
    let path = locate world.cwd sess_dir in
    let socket_path = join sess_dir socket_filename in
    elim (create_dir_all path world.tree) [
      | none ↦ none
      | some tree ↦ elim (node_at (path ++ socket_filename ∷ []) tree) [
        | none ↦
            if succeeds os socket_path
            then some (insert_at path socket_filename socket tree)
            else none
        | some (dir readable entries) ↦ none
        | some other ↦
            let freed = remove_at (path ++ socket_filename ∷ []) tree in
            if succeeds os socket_path
            then some (insert_at path socket_filename socket freed)
            else none
      ]
    ]

resolve-snoc :
    (done ps : List Bytes) (name : Bytes)
    → equal name (codes "..") ≡ false
    → resolve done (ps ++ name ∷ []) ≡ resolve done ps ++ name ∷ []
unfolding resolve
resolve-snoc done [] name h = rw h
resolve-snoc done (p ∷ ps) name h =
    resolve-snoc (if equal p (codes "..") then drop_last done else done ++ p ∷ []) ps name h

pub locate-socket :
    (cwd : List Bytes) (path : FilePath)
    → locate cwd (join path socket_filename) ≡ locate cwd path ++ socket_filename ∷ []
unfolding locate join components equal
locate-socket cwd path = elim (Bool-cases path.absolute) [
  | inl e ↦ simp e (resolve-snoc [] path.parts socket_filename refl)
  | inr e ↦ simp e (
      ap (resolve []) (sym (append_assoc cwd path.parts (socket_filename ∷ [])))
      ∙ resolve-snoc [] (cwd ++ path.parts) socket_filename refl)
]

-- A result that starts a session has made its directory, in which no socket stands.
abbrev IsReady : World → Result → Type 0
IsReady world r =
    (start : Start)
    → r.started ≡ some start
    → (start.sess_dir ≡ session_dir world.env start.session_name)
      × TakesSocket (locate world.cwd start.sess_dir) socket_filename r.tree

new_session-IsReady :
    (world : World) (name : Bytes) (command : List Bytes) (forks : Bool) (tree : Node)
    → IsReady world (new_session world name command forks tree)
unfolding new_session
new_session-IsReady world name command forks tree start h =
    let sess_dir = session_dir world.env name in
    let path = locate world.cwd sess_dir in
    elim (Option-cases (node_at (locate world.cwd (join sess_dir socket_filename)) tree)) [
      | inr (n, e) ↦ cc (rw (e, new_session) at h)
      | inl e ↦ elim (Option-cases (create_dir_all path tree)) [
        | inl f ↦ cc (rw (e, f, new_session) at h)
        | inr (made, f) ↦
            let free : node_at (path ++ socket_filename ∷ []) tree ≡ none =
              ap (λ q. node_at q tree) (sym (locate-socket world.cwd sess_dir)) ∙ e in
            let t = create_dir_all-TakesSocket path socket_filename tree made f free in
            elim (Bool-cases forks) [
              | inr y ↦ cc (rw (e, f, new_session, y) at h)
              | inl y ↦
                  let st : Start = record {
                    session_name = name;
                    sess_dir = sess_dir;
                    command = command;
                  } in
                  let same : st ≡ start = cc (rw (e, f, new_session, y) at h) in
                  let left : (new_session world name command forks tree).tree ≡ made =
                    rw (e, f, new_session, y) in
                  subst
                    (λ st.
                      (st.sess_dir ≡ session_dir world.env st.session_name)
                      × TakesSocket (locate world.cwd st.sess_dir) socket_filename
                          (new_session world name command forks tree).tree)
                    same (refl, subst (TakesSocket path socket_filename) (sym left) t)
            ]
      ]
    ]

clean_up-node :
    (world : World) (name : Bytes) (command : List Bytes) (forks : Bool) (n : Node)
    → node_at (locate world.cwd (session_dir world.env name)) world.tree ≡ some n
    → IsReady world (clean_up world name command forks)
unfolding clean_up
clean_up-node world name command forks socket e start h =
    rw (e, clean_up) (new_session-IsReady world name command forks _ start (rw (e, clean_up) at h))
clean_up-node world name command forks file e start h = cc (rw (e, clean_up) at h)
clean_up-node world name command forks (dir readable entries) e start h =
    rw (e, clean_up)
      (new_session-IsReady world name command forks world.tree start (rw (e, clean_up) at h))

clean_up-IsReady :
    (world : World) (name : Bytes) (command : List Bytes) (forks : Bool)
    → IsReady world (clean_up world name command forks)
unfolding clean_up
clean_up-IsReady world name command forks start h =
    elim (Option-cases (node_at (locate world.cwd (session_dir world.env name)) world.tree)) [
      | inl e ↦
          rw (e, clean_up)
            (new_session-IsReady world name command forks world.tree start (rw (e, clean_up) at h))
      | inr (n, e) ↦ clean_up-node world name command forks n e start h
    ]

cmd_new-IsReady :
    (world : World) (args : List Bytes) (forks : Bool) → IsReady world (cmd_new world args forks)
unfolding cmd_new
cmd_new-IsReady world args forks start h =
    let (name, cmd_args) = parse_new true [] [] args in
    elim (Bool-cases (is_empty name)) [
      | inl e ↦ cc (rw (e, cmd_new) at h)
      | inr e ↦
          rw (e, cmd_new)
            (clean_up-IsReady world name (default_command world.env cmd_args) forks start
              (rw (e, cmd_new) at h))
    ]

-- The daemon's socket, at the path at which the commands look for the session.
pub cmd_new-socket :
    (os : Listening) (world : World) (args : List Bytes) (forks : Bool) (start : Start)
    → let left = record world { tree = (cmd_new world args forks).tree } in
      let path =
        locate world.cwd (join (session_dir world.env start.session_name) socket_filename) in
      (cmd_new world args forks).started ≡ some start
      → (tree : Node) × (bind os left start.sess_dir
          ≡ (if succeeds os (join start.sess_dir socket_filename) then some tree else none))
        × (node_at path left.tree ≡ none)
        × (node_at path tree ≡ some socket)
unfolding bind
cmd_new-socket os world args forks start h =
    let (named, t) = cmd_new-IsReady world args forks start h in
    let path = locate world.cwd start.sess_dir in
    let found : (tree : Node)
        → node_at
            (locate world.cwd (join (session_dir world.env start.session_name) socket_filename))
            tree
          ≡ node_at (path ++ socket_filename ∷ []) tree =
      λ tree.
        ap (λ q. node_at (locate world.cwd (join q socket_filename)) tree) (sym named)
        ∙ ap (λ q. node_at q tree) (locate-socket world.cwd start.sess_dir) in
    (
      insert_at path socket_filename socket (cmd_new world args forks).tree,
      rw (t.stands, t.free, bind) refl,
      found (cmd_new world args forks).tree ∙ t.free,
      found _ ∙ t.taken,
    )

-- Where the daemon has made its socket, it stands at that path.
pub cmd_new-bound :
    (os : Listening) (world : World) (args : List Bytes) (forks : Bool) (start : Start)
    (tree : Node)
    → (cmd_new world args forks).started ≡ some start
    → bind os (record world { tree = (cmd_new world args forks).tree }) start.sess_dir ≡ some tree
    → node_at
        (locate world.cwd (join (session_dir world.env start.session_name) socket_filename))
        tree
      ≡ some socket
cmd_new-bound os world args forks start tree h made =
    let (tree', e, free, taken) = cmd_new-socket os world args forks start h in
    elim (Bool-cases (succeeds os (join start.sess_dir socket_filename))) [
      | inl s ↦
          let same : tree' ≡ tree = cc (rw s at e, made) in
          subst
            (λ t.
              node_at
                (locate world.cwd (join (session_dir world.env start.session_name) socket_filename))
                t
              ≡ some socket)
            same taken
      | inr f ↦ cc (rw f at e, made)
    ]
