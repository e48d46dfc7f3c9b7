-- ===== src/Paths/Sessions.antt =====
-- src/paths.rs: what is a session below a directory, apart from how `find_sessions` looks for it.
use pterm.Common.{
  if◌then◌else◌, Bool-cases, ◌≡◌, refl, sym, ◌⊎◌, inl, inr, Bool, true, false, Option, none, some,
  List, [], ◌∷◌, ◌++◌, Bytes,
}
use pterm.Paths.{
  Node, socket, file, dir, Entries, empty, entry, is_dir, is_socket, child, socket_filename,
  full_name, is_skipped, and_then,
}

module _ {A : Type 0} where
  abbrev pub Elem : A → List A → Type 0
  Elem x [] = ⊥
  Elem x (y ∷ ys) = (y ≡ x) ⊎ Elem x ys

module _ {A : Type 0} where
  pub Elem-append : (x : A) (xs ys : List A) → Elem x (xs ++ ys) → Elem x xs ⊎ Elem x ys
  Elem-append x [] ys m = inr m
  Elem-append x (z ∷ xs) ys (inl e) = inl (inl e)
  Elem-append x (z ∷ xs) ys (inr m) = elim (Elem-append x xs ys m) [
    | inl h ↦ inl (inr h)
    | inr h ↦ inr h
  ]

  pub Elem-left : (x : A) (xs ys : List A) → Elem x xs → Elem x (xs ++ ys)
  Elem-left x [] ys m = absurd m
  Elem-left x (z ∷ xs) ys (inl e) = inl e
  Elem-left x (z ∷ xs) ys (inr m) = inr (Elem-left x xs ys m)

  pub Elem-right : (x : A) (xs ys : List A) → Elem x ys → Elem x (xs ++ ys)
  Elem-right x [] ys m = m
  Elem-right x (z ∷ xs) ys m = inr (Elem-right x xs ys m)

abbrev pub HasEntry : Bytes → Node → Entries → Type 0
HasEntry name node empty = ⊥
HasEntry name node (entry other n entries) =
    ((other ≡ name) × (n ≡ node)) ⊎ HasEntry name node entries

abbrev pub entries_of : Node → Entries
entries_of (dir readable entries) = entries
entries_of _ = empty

-- The name of a session from the names on the way to it.
abbrev pub session_name : Bytes → List Bytes → Bytes
session_name prefix [] = prefix
session_name prefix (p ∷ ps) = session_name (full_name prefix p) ps

module _ (to_str : Bytes → Bool) where
  -- `path` leads from `node`, over entries that are not skipped, to a directory that holds a socket.
  abbrev pub LeadsToSocket : List Bytes → Node → Type 0
  LeadsToSocket [] node = is_socket (child socket_filename node) ≡ true
  LeadsToSocket (p ∷ ps) node =
      (n : Node) × HasEntry p n (entries_of node)
      × (is_skipped to_str p ≡ false)
      × LeadsToSocket ps n

  -- The session that such a path behind one of the entries names.
  abbrev pub IsSession : Bytes → Entries → Bytes → Type 0
  IsSession prefix entries name =
      (p : Bytes) × (ps : List Bytes) × (n : Node) × HasEntry p n entries
      × (is_skipped to_str p ≡ false)
      × LeadsToSocket ps n
      × (name ≡ session_name (full_name prefix p) ps)

  pub LeadsToSocket-is_dir :
      (ps : List Bytes) (node : Node) → LeadsToSocket ps node → is_dir node ≡ true
  unfolding child
  LeadsToSocket-is_dir [] (dir r es) h = refl
  LeadsToSocket-is_dir [] socket h = cc
  LeadsToSocket-is_dir [] file h = cc
  LeadsToSocket-is_dir (p ∷ ps) (dir r es) h = refl
  LeadsToSocket-is_dir (p ∷ ps) socket (n, has, k, h) = absurd has
  LeadsToSocket-is_dir (p ∷ ps) file (n, has, k, h) = absurd has

  pub and_then-some :
      (here : List Bytes) (children rest : Option (List Bytes)) (names : List Bytes)
      → and_then here children rest ≡ some names
      → (cs : List Bytes) × (rs : List Bytes) × (children ≡ some cs)
        × (rest ≡ some rs)
        × (names ≡ here ++ (cs ++ rs))
  and_then-some here (some cs) (some rs) names h = (cs, rs, refl, refl, cc)
  and_then-some here (some cs) none names h = cc
  and_then-some here none rest names h = cc

  -- The session of a directory's own socket.
  pub own-IsSession :
      (prefix nm name : Bytes) (node : Node) (es : Entries)
      → is_skipped to_str nm ≡ false
      → Elem name (if is_socket (child socket_filename node) then full_name prefix nm ∷ [] else [])
      → IsSession prefix (entry nm node es) name
  own-IsSession prefix nm name node es k m =
      elim (Bool-cases (is_socket (child socket_filename node))) [
        | inl sock ↦ elim (rw sock at m) [
          | inl e ↦ (nm, [], node, inl (refl, refl), k, sock, sym e)
          | inr none_left ↦ absurd none_left
        ]
        | inr no_sock ↦ absurd (rw no_sock at m)
      ]
