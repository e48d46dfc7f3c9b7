-- ===== src/Paths/Nodes.antt =====
-- The nodes on the way to a path: what `create_dir_all` makes, and what an empty directory holds.
use pterm.Common.{
  ◌∙◌, subst, sym, ◌++◌, ap, Bool-cases, Option-cases, equal_iff, equal, ◌≡◌, refl, ◌≢◌, inl, inr,
  Bool, true, none, some, List, [], ◌∷◌, arith, Bytes,
}
use pterm.Paths.{Node, socket, file, dir, Entries, empty, entry, lookup, child, is_dir}
use pterm.Paths.Files.{
  map_option, insert_at, node_at, update, insert, create_dir_all, is_prefix, lookup-update,
  equal_self,
}

lookup-insert :
    (name : Bytes) (node : Node) (es : Entries)
    → lookup name es ≡ none
    → lookup name (insert name node es) ≡ some node
unfolding lookup insert
lookup-insert name node empty h = rw (equal_self name)
lookup-insert name node (entry x n es) h = elim (Bool-cases (equal x name)) [
  | inl e ↦ cc (rw e at h)
  | inr e ↦ rw e (lookup-insert name node es (rw e at h))
]

-- A path that has been created leads to a directory.
pub create_dir_all-is_dir :
    (path : List Bytes) (node created : Node)
    → create_dir_all path node ≡ some created
    → (n : Node) × (node_at path created ≡ some n) × (is_dir n ≡ true)
unfolding create_dir_all node_at child
create_dir_all-is_dir [] (dir r es) created h =
    let e : dir r es ≡ created = cc in (created, refl, rw (← e) refl)
create_dir_all-is_dir [] socket created h = cc
create_dir_all-is_dir [] file created h = cc
create_dir_all-is_dir (p ∷ ps) socket created h = cc
create_dir_all-is_dir (p ∷ ps) file created h = cc
create_dir_all-is_dir (p ∷ ps) (dir r es) created h = elim (Option-cases (lookup p es)) [
  | inl e ↦ elim (Option-cases (create_dir_all ps (dir true empty))) [
    | inl f ↦ cc (rw (e, f, create_dir_all) at h)
    | inr (made, f) ↦
        let (n, at, d) = create_dir_all-is_dir ps (dir true empty) made f in
        let whole : dir r (insert p made es) ≡ created = cc (rw (e, f, create_dir_all) at h) in
        (n, rw (← whole, lookup-insert p made es e, node_at) at, d)
  ]
  | inr (old, e) ↦ elim (Option-cases (create_dir_all ps old)) [
    | inl f ↦ cc (rw (e, f, create_dir_all) at h)
    | inr (made, f) ↦
        let (n, at, d) = create_dir_all-is_dir ps old made f in
        let whole : dir r (update p (λ _. made) es) ≡ created =
          cc (rw (e, f, create_dir_all) at h) in
        (n, rw (← whole, lookup-update p (λ _. made) es, e, node_at) at, d)
  ]
]

-- An empty directory has no socket below it.
pub empty_dir-socket :
    (path other : List Bytes) (readable : Bool) (node : Node)
    → is_prefix path other ≡ true
    → node_at path node ≡ some (dir readable empty)
    → node_at other node ≢ some socket
unfolding node_at child is_prefix
empty_dir-socket [] [] r node d h s = cc
empty_dir-socket [] (x ∷ xs) r (dir r' es) d h s =
    let e : es ≡ empty = cc in cc (rw (e, lookup) at s)
empty_dir-socket [] (x ∷ xs) r socket d h s = cc
empty_dir-socket [] (x ∷ xs) r file d h s = cc
empty_dir-socket (p ∷ ps) [] r node d h s = cc
empty_dir-socket (p ∷ ps) (x ∷ xs) r node d h s = elim (Option-cases (child p node)) [
  | inl e ↦ cc (rw (e, node_at) at h)
  | inr (n, e) ↦
      let same : p ≡ x = (equal_iff p x).0 (ground arith) in
      let e' : child x node ≡ some n = rw same at e in
      empty_dir-socket ps xs r n (ground arith) (rw (e, node_at) at h) (rw (e', node_at) at s)
]

update-same :
    (name : Bytes) (node : Node) (es : Entries)
    → lookup name es ≡ some node
    → update name (λ _. node) es ≡ es
unfolding lookup update
update-same name node empty h = cc
update-same name node (entry x n es) h = elim (Bool-cases (equal x name)) [
  | inl e ↦ let same : n ≡ node = cc (rw e at h) in rw e (ap (λ m. entry x m es) (sym same))
  | inr e ↦ rw e (ap (entry x n) (update-same name node es (rw e at h)))
]

-- A directory stands at the path, and takes a socket of the name.
pub record TakesSocket (path : List Bytes) (name : Bytes) (tree : Node) : Type 0 where
  pub stands : create_dir_all path tree ≡ some tree
  pub free : node_at (path ++ name ∷ []) tree ≡ none
  pub taken : node_at (path ++ name ∷ []) (insert_at path name socket tree) ≡ some socket

TakesSocket-dir :
    (p : Bytes) (ps : List Bytes) (name : Bytes) (m : Node) (r : Bool) (es : Entries)
    → lookup p es ≡ some m
    → TakesSocket ps name m
    → TakesSocket (p ∷ ps) name (dir r es)
unfolding create_dir_all node_at insert_at child
TakesSocket-dir p ps name m r es e t = record {
  stands = rw (e, create_dir_all, t.stands) (ap (λ fs. some (dir r fs)) (update-same p m es e));
  free = rw (e, node_at) t.free;
  taken = rw (lookup-update p (insert_at ps name socket) es, e, node_at) t.taken;
}

node_at-empty_dir :
    (path : List Bytes) (name : Bytes) → node_at (path ++ name ∷ []) (dir true empty) ≡ none
unfolding node_at child lookup
node_at-empty_dir [] name = refl
node_at-empty_dir (p ∷ ps) name = refl

-- What `create_dir_all` makes where nothing has the name.
pub create_dir_all-TakesSocket :
    (path : List Bytes) (name : Bytes) (node created : Node)
    → create_dir_all path node ≡ some created
    → node_at (path ++ name ∷ []) node ≡ none
    → TakesSocket path name created
unfolding create_dir_all node_at insert_at child
create_dir_all-TakesSocket [] name (dir r es) created h f =
    let e : dir r es ≡ created = cc in
    let away : lookup name es ≡ none = ground arith in
    subst (TakesSocket [] name) e
      (record { stands = refl; free = f; taken = rw (lookup-insert name socket es away, node_at) })
create_dir_all-TakesSocket [] name socket created h f = cc
create_dir_all-TakesSocket [] name file created h f = cc
create_dir_all-TakesSocket (p ∷ ps) name socket created h f = cc
create_dir_all-TakesSocket (p ∷ ps) name file created h f = cc
create_dir_all-TakesSocket (p ∷ ps) name (dir r es) created h f =
    elim (Option-cases (lookup p es)) [
      | inl e ↦ elim (Option-cases (create_dir_all ps (dir true empty))) [
        | inl g ↦ cc (rw (e, g, create_dir_all) at h)
        | inr (made, g) ↦
            let t =
              create_dir_all-TakesSocket ps name (dir true empty) made g
                (node_at-empty_dir ps name) in
            let whole : dir r (insert p made es) ≡ created = cc (rw (e, g, create_dir_all) at h) in
            subst (TakesSocket (p ∷ ps) name) whole
              (TakesSocket-dir p ps name made r (insert p made es) (lookup-insert p made es e) t)
      ]
      | inr (old, e) ↦ elim (Option-cases (create_dir_all ps old)) [
        | inl g ↦ cc (rw (e, g, create_dir_all) at h)
        | inr (made, g) ↦
            let t = create_dir_all-TakesSocket ps name old made g (rw (e, node_at) at f) in
            let whole : dir r (update p (λ _. made) es) ≡ created =
              cc (rw (e, g, create_dir_all) at h) in
            subst (TakesSocket (p ∷ ps) name) whole (
              TakesSocket-dir p ps name made r (update p (λ _. made) es)
                (lookup-update p (λ _. made) es ∙ ap (map_option (λ _. made)) e) t)
      ]
    ]
