-- ===== src/Commands/Args.antt =====
-- src/main.rs: how the commands read their arguments.
use pterm.Common.{
  if◌then◌else◌, Bool-cases, All, codes, equal, ℕ, ◌≡◌, refl, ◌∙◌, inl, inr, Bool, true, false,
  ◌&&◌, Option, none, some, List, [], ◌∷◌, ◌++◌, append-nil, append_assoc, Bytes,
}

abbrev is_separator : Bytes → Bool
is_separator arg = equal arg (codes "--")

abbrev pub is_empty : Bytes → Bool
is_empty [] = true
is_empty (c ∷ cs) = false

-- The loop of `cmd_new`: the session name and the command. The first flag is `parsing_opts`.
unfoldable pub parse_new : Bool → Bytes → List Bytes → List Bytes → Bytes × List Bytes
unfolding equal
parse_new parsing_opts session_name cmd_args [] = (session_name, cmd_args)
parse_new parsing_opts session_name cmd_args (arg ∷ args) =
    let separated = parse_new false session_name cmd_args args in
    let named = parse_new parsing_opts arg cmd_args args in
    let more = parse_new parsing_opts session_name (cmd_args ++ arg ∷ []) args in
    if parsing_opts && is_separator arg
    then separated
    else if is_empty session_name
    then named
    else more

unfoldable pub parse_session_name : Bool → List Bytes → Option Bytes
unfolding equal
parse_session_name parsing_opts [] = none
parse_session_name parsing_opts (arg ∷ args) =
    let separated = parse_session_name false args in
    if parsing_opts && is_separator arg then separated else some arg

-- The loop of `cmd_attach`.
unfoldable pub parse_attach : Bytes → List Bytes → Bytes
parse_attach session_name [] = session_name
parse_attach session_name (arg ∷ args) =
    parse_attach (if is_empty session_name then arg else session_name) args

-- `args.first()`
unfoldable pub first_arg : List Bytes → Option Bytes
first_arg [] = none
first_arg (arg ∷ args) = some arg

-- The name stays as soon as it is not empty.
parse_new-name :
    (parsing_opts : Bool) (c : ℕ) (cs : Bytes) (cmd_args args : List Bytes)
    → (parse_new parsing_opts (c ∷ cs) cmd_args args).0 ≡ c ∷ cs
unfolding parse_new
parse_new-name parsing_opts c cs cmd_args [] = refl
parse_new-name parsing_opts c cs cmd_args (arg ∷ args) =
    elim (Bool-cases (parsing_opts && is_separator arg)) [
      | inl s ↦ rw s (parse_new-name false c cs cmd_args args)
      | inr w ↦ rw w (parse_new-name parsing_opts c cs (cmd_args ++ arg ∷ []) args)
    ]

-- If parse_session_name finds a name that is not empty, the loop of cmd_new over the same arguments
-- finds the same name.
pub parse_session_name-parse_new :
    (parsing_opts : Bool) (args : List Bytes) (c : ℕ) (cs : Bytes)
    → parse_session_name parsing_opts args ≡ some (c ∷ cs)
    → (parse_new parsing_opts [] [] args).0 ≡ c ∷ cs
unfolding parse_session_name parse_new
parse_session_name-parse_new parsing_opts [] c cs h = cc
parse_session_name-parse_new parsing_opts (arg ∷ args) c cs h =
    elim (Bool-cases (parsing_opts && is_separator arg)) [
      | inl s ↦ rw s (parse_session_name-parse_new false args c cs (rw s at h))
      | inr w ↦
          let e : arg ≡ c ∷ cs = cc (rw w at h) in
          rw w (rw e (parse_new-name parsing_opts c cs [] args))
    ]

-- An argument that is no separator.
abbrev pub IsWord : Bytes → Type 0
IsWord arg = is_separator arg ≡ false

parse_new-command :
    (name : Bytes) (c : ℕ) (cs : Bytes) (cmd_args args : List Bytes)
    → name ≡ c ∷ cs
    → parse_new false name cmd_args args ≡ (name, cmd_args ++ args)
unfolding parse_new
parse_new-command name c cs cmd_args [] e = rw append-nil
parse_new-command name c cs cmd_args (arg ∷ args) e =
    let named : is_empty name ≡ false = rw e refl in
    rw named (parse_new-command name c cs (cmd_args ++ arg ∷ []) args e ∙ rw append_assoc)

parse_new-words :
    (c : ℕ) (cs : Bytes) (cmd_args words rest : List Bytes)
    → All IsWord words
    → parse_new true (c ∷ cs) cmd_args (words ++ codes "--" ∷ rest)
      ≡ (c ∷ cs, cmd_args ++ (words ++ rest))
unfolding parse_new equal
parse_new-words c cs cmd_args [] rest h = parse_new-command (c ∷ cs) c cs cmd_args rest refl
parse_new-words c cs cmd_args (word ∷ words) rest (w, h) =
    rw w (parse_new-words c cs (cmd_args ++ word ∷ []) words rest h ∙ rw append_assoc)

-- Of a name that is not empty, words, -- and further arguments, where neither the name nor a word
-- is --, cmd_new takes the name, and as the command the words and the further arguments: the first
-- -- is dropped wherever it stands.
pub parse_new-separator :
    (c : ℕ) (cs : Bytes) (words rest : List Bytes)
    → IsWord (c ∷ cs)
    → All IsWord words
    → parse_new true [] [] ((c ∷ cs) ∷ words ++ codes "--" ∷ rest) ≡ (c ∷ cs, words ++ rest)
unfolding parse_new
parse_new-separator c cs words rest n h = rw n (parse_new-words c cs [] words rest h)
