-- ===== src/Paths/Files.antt =====
-- The calls of the file system that the program makes, on the tree of src/paths.rs.
--
-- A call fails where the tree does not allow it; that the operating system refuses it for another
-- reason is not modelled, but for a directory that cannot be read.
use pterm.Common.{
  if◌then◌else◌, Bool-cases, Option-cases, codes, equal_iff, equal, ◌≡◌, refl, sym, ap, ◌∙◌, inl,
  inr, Bool, true, false, ◌&&◌, Option, none, some, List, [], ◌∷◌, ◌++◌, arith, Bytes,
}
use pterm.Paths.{Node, socket, file, dir, Entries, empty, entry, lookup, child, FilePath}

-- A path with its `..` taken: without symbolic links it leads to what stands before.
abbrev pub drop_last : List Bytes → List Bytes
drop_last [] = []
drop_last (p ∷ []) = []
drop_last (p ∷ q ∷ ps) = p ∷ drop_last (q ∷ ps)

unfoldable pub resolve : List Bytes → List Bytes → List Bytes
unfolding equal
resolve done [] = done
resolve done (p ∷ ps) = resolve (if equal p (codes "..") then drop_last done else done ++ p ∷ []) ps

-- Where a path leads to from the root, in a process with the working directory `cwd`.
unfoldable pub locate : List Bytes → FilePath → List Bytes
unfolding resolve
locate cwd path = resolve [] (if path.absolute then path.parts else cwd ++ path.parts)

unfoldable pub node_at : List Bytes → Node → Option Node
unfolding child
node_at [] node = some node
node_at (p ∷ ps) node = elim (child p node) [ none ↦ none | some n ↦ node_at ps n ]

unfoldable pub delete : Bytes → Entries → Entries
unfolding equal
delete name empty = empty
delete name (entry other node entries) =
    let rest = delete name entries in if equal other name then rest else entry other node rest

unfoldable pub update : Bytes → (Node → Node) → Entries → Entries
unfolding equal
update name f empty = empty
update name f (entry other node entries) =
    let rest = update name f entries in
    if equal other name then entry other (f node) entries else entry other node rest

-- `remove_file`, `remove_dir` and `remove_dir_all`: what stands at the path goes.
unfoldable pub remove_at : List Bytes → Node → Node
unfolding delete update
remove_at [] node = node
remove_at (p ∷ []) (dir readable entries) = dir readable (delete p entries)
remove_at (p ∷ q ∷ ps) (dir readable entries) = dir readable (update p (remove_at (q ∷ ps)) entries)
remove_at (p ∷ ps) node = node

-- A new entry, where no entry has the name.
unfoldable pub insert : Bytes → Node → Entries → Entries
insert name node empty = entry name node empty
insert name node (entry other n entries) = entry other n (insert name node entries)

-- A new entry of the directory at a path.
unfoldable pub insert_at : List Bytes → Bytes → Node → Node → Node
unfolding insert update
insert_at [] name new (dir readable entries) = dir readable (insert name new entries)
insert_at (p ∷ ps) name new (dir readable entries) =
    dir readable (update p (insert_at ps name new) entries)
insert_at path name new node = node

abbrev pub put_entry : Bool → Bytes → Entries → Option Node → Option Node
put_entry readable name entries none = none
put_entry readable name entries (some node) = some (dir readable (insert name node entries))

abbrev pub put_update : Bool → Bytes → Entries → Option Node → Option Node
put_update readable name entries none = none
put_update readable name entries (some node) = some (dir readable (update name (λ _. node) entries))

-- `create_dir_all`; `none` where a name on the way is no directory.
unfoldable pub create_dir_all : List Bytes → Node → Option Node
unfolding lookup insert update
create_dir_all [] (dir readable entries) = some (dir readable entries)
create_dir_all [] node = none
create_dir_all (p ∷ ps) (dir readable entries) = elim (lookup p entries) [
  | none ↦ put_entry readable p entries (create_dir_all ps (dir true empty))
  | some node ↦ put_update readable p entries (create_dir_all ps node)
]
create_dir_all (p ∷ ps) node = none

unfoldable pub is_prefix : List Bytes → List Bytes → Bool
unfolding equal
is_prefix [] qs = true
is_prefix (p ∷ ps) [] = false
is_prefix (p ∷ ps) (q ∷ qs) = equal p q && is_prefix ps qs

pub equal_self : (a : Bytes) → equal a a ≡ true
equal_self a = (equal_iff a a).1 refl

lookup-delete : (name : Bytes) (es : Entries) → lookup name (delete name es) ≡ none
unfolding lookup delete
lookup-delete name empty = refl
lookup-delete name (entry other n es) = elim (Bool-cases (equal other name)) [
  | inl e ↦ rw e (lookup-delete name es)
  | inr e ↦ rw (e, lookup, e) (lookup-delete name es)
]

lookup-delete_other :
    (name other : Bytes) (es : Entries)
    → equal name other ≡ false
    → lookup other (delete name es) ≡ lookup other es
unfolding lookup delete
lookup-delete_other name other empty d = refl
lookup-delete_other name other (entry x n es) d = elim (Bool-cases (equal x name)) [
  | inl e ↦
      let same : x ≡ name = (equal_iff x name).0 e in
      let apart : equal x other ≡ false = rw same d in
      rw (e, apart) (lookup-delete_other name other es d)
  | inr e ↦ elim (Bool-cases (equal x other)) [
    | inl e' ↦ rw (e, lookup, e')
    | inr e' ↦ rw (e, lookup, e') (lookup-delete_other name other es d)
  ]
]

lookup-update_other :
    (name other : Bytes) (f : Node → Node) (es : Entries)
    → equal name other ≡ false
    → lookup other (update name f es) ≡ lookup other es
unfolding lookup update
lookup-update_other name other f empty d = refl
lookup-update_other name other f (entry x n es) d = elim (Bool-cases (equal x name)) [
  | inl e ↦
      let same : x ≡ name = (equal_iff x name).0 e in
      let apart : equal x other ≡ false = rw same d in rw (e, lookup, apart)
  | inr e ↦ elim (Bool-cases (equal x other)) [
    | inl e' ↦ rw (e, lookup, e')
    | inr e' ↦ rw (e, lookup, e') (lookup-update_other name other f es d)
  ]
]

abbrev pub map_option : (Node → Node) → Option Node → Option Node
map_option f none = none
map_option f (some n) = some (f n)

pub lookup-update :
    (name : Bytes) (f : Node → Node) (es : Entries)
    → lookup name (update name f es) ≡ map_option f (lookup name es)
unfolding lookup update
lookup-update name f empty = refl
lookup-update name f (entry x n es) = elim (Bool-cases (equal x name)) [
  | inl e ↦ rw (e, lookup, e)
  | inr e ↦ rw (e, lookup, e) (lookup-update name f es)
]

-- What stands at a path is gone once it has been removed.
pub node_at-remove_at :
    (p : Bytes) (ps : List Bytes) (node : Node) → node_at (p ∷ ps) (remove_at (p ∷ ps) node) ≡ none
unfolding node_at remove_at child
node_at-remove_at p [] (dir r es) = rw (lookup-delete p es, node_at)
node_at-remove_at p (q ∷ ps) (dir r es) = elim (Option-cases (lookup p es)) [
  | inl e ↦ rw (lookup-update p (remove_at (q ∷ ps)) es, e, node_at)
  | inr (n, e) ↦ rw (lookup-update p (remove_at (q ∷ ps)) es, e, node_at) (node_at-remove_at q ps n)
]
node_at-remove_at p [] socket = refl
node_at-remove_at p (q ∷ ps) socket = refl
node_at-remove_at p [] file = refl
node_at-remove_at p (q ∷ ps) file = refl

-- A removal keeps every socket that does not stand below it.
pub remove_at-socket :
    (path other : List Bytes) (node : Node)
    → is_prefix path other ≡ false
    → node_at other node ≡ some socket
    → node_at other (remove_at path node) ≡ some socket
unfolding node_at remove_at child is_prefix
remove_at-socket [] other node d h = cc
remove_at-socket (p ∷ []) [] (dir r es) d h = ground arith
remove_at-socket (p ∷ q ∷ ps) [] (dir r es) d h = ground arith
remove_at-socket (p ∷ []) other socket d h = h
remove_at-socket (p ∷ q ∷ ps) other socket d h = h
remove_at-socket (p ∷ []) other file d h = h
remove_at-socket (p ∷ q ∷ ps) other file d h = h
remove_at-socket (p ∷ []) (x ∷ xs) (dir r es) d h =
    let apart : equal p x ≡ false = ground arith in rw (lookup-delete_other p x es apart, node_at) h
remove_at-socket (p ∷ q ∷ ps) (x ∷ xs) (dir r es) d h = elim (Bool-cases (equal p x)) [
  | inr apart ↦ rw (lookup-update_other p x (remove_at (q ∷ ps)) es apart, node_at) h
  | inl e ↦
      let same : p ≡ x = (equal_iff p x).0 e in
      let beside : is_prefix (q ∷ ps) xs ≡ false = ground arith in
      elim (Option-cases (lookup x es)) [
        | inl f ↦ cc (rw (f, node_at) at h)
        | inr (n, f) ↦
            let f' : lookup p es ≡ some n = rw (← same) at f in
            let found : lookup x (update p (remove_at (q ∷ ps)) es) ≡ some (remove_at (q ∷ ps) n) =
              ap (λ y. lookup y (update p (remove_at (q ∷ ps)) es)) (sym same)
              ∙ lookup-update p (remove_at (q ∷ ps)) es
              ∙ ap (map_option (remove_at (q ∷ ps))) f' in
            rw (found, node_at) (remove_at-socket (q ∷ ps) xs n beside (rw (f, node_at) at h))
      ]
]

-- A removal brings nothing back.
pub remove_at-none :
    (path other : List Bytes) (node : Node)
    → node_at other node ≡ none
    → node_at other (remove_at path node) ≡ none
unfolding node_at remove_at child
remove_at-none path [] node h = cc
remove_at-none [] (x ∷ xs) node h = h
remove_at-none (p ∷ []) (x ∷ xs) socket h = h
remove_at-none (p ∷ q ∷ ps) (x ∷ xs) socket h = h
remove_at-none (p ∷ []) (x ∷ xs) file h = h
remove_at-none (p ∷ q ∷ ps) (x ∷ xs) file h = h
remove_at-none (p ∷ []) (x ∷ xs) (dir r es) h = elim (Bool-cases (equal p x)) [
  | inl e ↦
      let same : p ≡ x = (equal_iff p x).0 e in
      let gone : lookup x (delete p es) ≡ none = rw (← same) (lookup-delete p es) in
      rw (gone, node_at)
  | inr apart ↦ rw (lookup-delete_other p x es apart, node_at) h
]
remove_at-none (p ∷ q ∷ ps) (x ∷ xs) (dir r es) h = elim (Bool-cases (equal p x)) [
  | inr apart ↦ rw (lookup-update_other p x (remove_at (q ∷ ps)) es apart, node_at) h
  | inl e ↦
      let same : p ≡ x = (equal_iff p x).0 e in
      let found : lookup x (update p (remove_at (q ∷ ps)) es)
          ≡ map_option (remove_at (q ∷ ps)) (lookup x es) =
        ap (λ y. lookup y (update p (remove_at (q ∷ ps)) es)) (sym same)
        ∙ lookup-update p (remove_at (q ∷ ps)) es
        ∙ ap (λ y. map_option (remove_at (q ∷ ps)) (lookup y es)) same in
      elim (Option-cases (lookup x es)) [
        | inl f ↦ rw (found, f, node_at)
        | inr (n, f) ↦ rw (found, f, node_at) (remove_at-none (q ∷ ps) xs n (rw (f, node_at) at h))
      ]
]
