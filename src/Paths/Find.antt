-- ===== src/Paths/Find.antt =====
-- src/paths.rs: `find_sessions` gives the sessions below a directory, and nothing else.
use pterm.Common.{
  ◌↔◌, if◌then◌else◌, Bool-cases, ◌≡◌, refl, sym, inl, inr, Bool, true, false, not, ◌||◌, some,
  List, [], ◌∷◌, ◌++◌, arith, Bytes,
}
use pterm.Paths.{
  find_sessions, Node, socket, file, dir, Entries, empty, entry, is_dir, is_socket, child,
  socket_filename, full_name, is_skipped, find_in, find_entries,
}
use pterm.Paths.Sessions.{
  Elem, Elem-append, Elem-left, Elem-right, entries_of, LeadsToSocket, IsSession,
  LeadsToSocket-is_dir, and_then-some, own-IsSession, session_name,
}

module _ (to_str : Bytes → Bool) where
  mutual
    unfolding find_in

    find_in-IsSession :
        (prefix : Bytes) (node : Node) (names : List Bytes) (name : Bytes)
        → find_in to_str prefix node ≡ some names
        → Elem name names
        → IsSession to_str prefix (entries_of node) name
    find_in-IsSession prefix (dir true es) names name h m =
        find_entries-IsSession prefix es names name h m
    find_in-IsSession prefix (dir false es) names name h m = cc
    find_in-IsSession prefix socket names name h m = cc
    find_in-IsSession prefix file names name h m = cc

    find_entries-IsSession :
        (prefix : Bytes) (es : Entries) (names : List Bytes) (name : Bytes)
        → find_entries to_str prefix es ≡ some names
        → Elem name names
        → IsSession to_str prefix es name
    find_entries-IsSession prefix empty names name h m =
        let e : names ≡ [] = cc in absurd (rw e at m)
    find_entries-IsSession prefix (entry nm node es) names name h m =
        elim (Bool-cases (is_skipped to_str nm || not (is_dir node))) [
          | inl skip ↦
              let (p, ps, n, has, k, path, e) =
                find_entries-IsSession prefix es names name (rw (skip, find_entries) at h) m in
              (p, ps, n, inr has, k, path, e)
          | inr taken ↦
              let full = full_name prefix nm in
              let here = if is_socket (child socket_filename node) then full ∷ [] else [] in
              let unskipped : is_skipped to_str nm ≡ false = ground arith in
              let (cs, rs, found, later, parts) =
                and_then-some to_str here (find_in to_str full node) (find_entries to_str prefix es)
                  names (rw (taken, find_entries) at h) in
              elim (Elem-append name here (cs ++ rs) (rw parts at m)) [
                | inl own ↦ own-IsSession to_str prefix nm name node es unskipped own
                | inr other ↦ elim (Elem-append name cs rs other) [
                  | inl below ↦
                      let (p, ps, n, has, k, path, e) =
                        find_in-IsSession full node cs name found below in
                      (nm, p ∷ ps, node, inl (refl, refl), unskipped, (n, has, k, path), e)
                  | inr beside ↦
                      let (p, ps, n, has, k, path, e) =
                        find_entries-IsSession prefix es rs name later beside in
                      (p, ps, n, inr has, k, path, e)
                ]
              ]
        ]

  mutual
    unfolding find_in

    IsSession-find_in :
        (prefix : Bytes) (node : Node) (names : List Bytes) (name : Bytes)
        → find_in to_str prefix node ≡ some names
        → IsSession to_str prefix (entries_of node) name
        → Elem name names
    IsSession-find_in prefix (dir true es) names name h m =
        IsSession-find_entries prefix es names name h m
    IsSession-find_in prefix (dir false es) names name h m = cc
    IsSession-find_in prefix socket names name h m = cc
    IsSession-find_in prefix file names name h m = cc

    IsSession-find_entries :
        (prefix : Bytes) (es : Entries) (names : List Bytes) (name : Bytes)
        → find_entries to_str prefix es ≡ some names
        → IsSession to_str prefix es name
        → Elem name names
    IsSession-find_entries prefix empty names name h (p, ps, n, has, k, path, e) = absurd has
    IsSession-find_entries prefix (entry nm node es) names name h (p, ps, n, has, k, path, e) =
        elim (Bool-cases (is_skipped to_str nm || not (is_dir node))) [
          | inl skip ↦ elim has [
            | inl (same, this) ↦
                let d = LeadsToSocket-is_dir to_str ps n path in
                let unskipped : is_skipped to_str nm ≡ false = rw same k in
                let is_one : is_dir node ≡ true = rw (← this) at d in ground arith
            | inr other ↦
                IsSession-find_entries prefix es names name (rw (skip, find_entries) at h)
                  (p, ps, n, other, k, path, e)
          ]
          | inr taken ↦
              let full = full_name prefix nm in
              let here = if is_socket (child socket_filename node) then full ∷ [] else [] in
              let (cs, rs, found, later, parts) =
                and_then-some to_str here (find_in to_str full node) (find_entries to_str prefix es)
                  names (rw (taken, find_entries) at h) in
              rw parts (elim has [
                | inl (same, this) ↦
                    let path' : LeadsToSocket to_str ps node = rw this path in
                    let e' : name ≡ session_name full ps = rw same e in
                    (elim ps
                        as (λ ps.
                          LeadsToSocket to_str ps node
                          → name ≡ session_name full ps
                          → Elem name (here ++ (cs ++ rs))) [
                            | [] ↦ λ sock e. Elem-left name here (cs ++ rs) (rw sock (inl (sym e)))
                            | q ∷ qs ↦ λ (m, inside, taken, way) e.
                                Elem-right name here (cs ++ rs) (
                                  Elem-left name cs rs (
                                    IsSession-find_in full node cs name found
                                      (q, qs, m, inside, taken, way, e)))
                          ])
                      path' e'
                | inr other ↦ Elem-right name here (cs ++ rs) (
                    Elem-right name cs rs (
                      IsSession-find_entries prefix es rs name later (p, ps, n, other, k, path, e)))
              ])
        ]

  -- Every directory from here on can be read.
  abbrev mutual
    pub Readable : Node → Type 0
    Readable (dir r es) = (r ≡ true) × AllReadable es
    Readable _ = Unit

    pub AllReadable : Entries → Type 0
    AllReadable empty = Unit
    AllReadable (entry name node es) = Readable node × AllReadable es

  mutual
    unfolding find_in

    find_in-succeeds :
        (prefix : Bytes) (node : Node)
        → Readable node
        → is_dir node ≡ true
        → (names : List Bytes) × (find_in to_str prefix node ≡ some names)
    find_in-succeeds prefix (dir true es) (r, h) d = find_entries-succeeds prefix es h
    find_in-succeeds prefix (dir false es) (r, h) d = cc
    find_in-succeeds prefix socket h d = cc
    find_in-succeeds prefix file h d = cc

    find_entries-succeeds :
        (prefix : Bytes) (es : Entries)
        → AllReadable es
        → (names : List Bytes) × (find_entries to_str prefix es ≡ some names)
    find_entries-succeeds prefix empty h = ([], refl)
    find_entries-succeeds prefix (entry nm node es) (r, h) =
        let (rs, later) = find_entries-succeeds prefix es h in
        elim (Bool-cases (is_skipped to_str nm || not (is_dir node))) [
          | inl skip ↦ (rs, rw (skip, find_entries) later)
          | inr taken ↦
              let (cs, found) = find_in-succeeds (full_name prefix nm) node r (ground arith) in
              let here =
                if is_socket (child socket_filename node) then full_name prefix nm ∷ [] else [] in
              (here ++ (cs ++ rs), rw (taken, found, later, find_entries))
        ]

  -- Where read_dir succeeds in a directory and all below it, find_sessions succeeds on it, and a
  -- name is among what it gives just if it names a session below: a directory that holds a socket
  -- named socket, reached over entries whose names are valid and not socket.
  pub find_sessions-IsSession :
      (base : Node) (prefix : Bytes)
      → Readable base
      → is_dir base ≡ true
      → (names : List Bytes) × (find_sessions to_str (some base) prefix ≡ some names)
        × ((name : Bytes) → Elem name names ↔ IsSession to_str prefix (entries_of base) name)
  unfolding find_sessions
  find_sessions-IsSession base prefix r d =
      let (names, h) = find_in-succeeds prefix base r d in
      (
        names,
        h,
        λ name. (
          find_in-IsSession prefix base names name h,
          IsSession-find_in prefix base names name h,
        ),
      )
