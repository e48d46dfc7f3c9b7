-- ===== src/Paths/Text.antt =====
-- src/paths.rs: paths as the texts that `display` prints, and the names in them.
use pterm.Common.{
  ◌==◌, if◌then◌else◌, Bool-cases, Option-cases, codes, equal, to_string, ℕ, ◌≡◌, refl, sym, ap,
  ap₂, ◌∙◌, inl, inr, ◌||◌, none, some, [], ◌∷◌, ◌++◌, arith, Bytes,
}
use pterm.Paths.{
  Env, components, is_absolute, path_of, join, socket_dir, session_socket_path, socket_filename,
}

-- `PathBuf::push`, on a name that is not absolute.
unfoldable pub push_name : Bytes → Bytes → Bytes
push_name [] name = name
push_name (c ∷ []) name = if c == b'/' then c ∷ name else c ∷ b'/' ∷ name
push_name (c ∷ d ∷ cs) name = c ∷ push_name (d ∷ cs) name

-- `PathBuf::push`
unfoldable pub push : Bytes → Bytes → Bytes
unfolding push_name
push base name = if is_absolute name then name else push_name base name

unfoldable pub socket_dir_text : Env → Bytes
unfolding push
socket_dir_text env = elim env.pterm_socket_dir [
  | some name ↦ name
  | none ↦ elim env.xdg_runtime_dir [
    | some runtime_dir ↦ push runtime_dir (codes "pterm")
    | none ↦ codes "/tmp/pterm-" ++ to_string env.uid
  ]
]

unfoldable pub socket_path_text : Env → Bytes → Bytes
unfolding push socket_dir_text
socket_path_text env name = push (push (socket_dir_text env) name) socket_filename

pub components-append :
    (part xs ys : Bytes)
    → components part (xs ++ b'/' ∷ ys) ≡ components part xs ++ components [] ys
unfolding components
components-append part [] ys = elim (Bool-cases (equal part [] || equal part (codes "."))) [
  | inl e ↦ rw e
  | inr e ↦ rw e
]
components-append part (x ∷ xs) ys = elim (Bool-cases (x == b'/')) [
  | inr e ↦ rw e (components-append (part ++ x ∷ []) xs ys)
  | inl e ↦ elim (Bool-cases (equal part [] || equal part (codes "."))) [
    | inl d ↦ rw (e, d) (components-append [] xs ys)
    | inr d ↦ rw (e, d) (ap (◌∷◌ part) (components-append [] xs ys))
  ]
]

push_name-components :
    (part : Bytes) (c : ℕ) (cs name : Bytes)
    → components part (push_name (c ∷ cs) name) ≡ components part (c ∷ cs) ++ components [] name
unfolding push_name components
push_name-components part c [] name = elim (Bool-cases (c == b'/')) [
  | inl e ↦ elim (Bool-cases (equal part [] || equal part (codes "."))) [
    | inl k ↦ rw (e, components, e, k)
    | inr k ↦ rw (e, components, e, k)
  ]
  | inr e ↦ elim (Bool-cases (equal (part ++ c ∷ []) [] || equal (part ++ c ∷ []) (codes "."))) [
    | inl k ↦ rw (e, components, e, k)
    | inr k ↦ rw (e, components, e, k)
  ]
]
push_name-components part c (d ∷ cs) name = elim (Bool-cases (c == b'/')) [
  | inl e ↦ elim (Bool-cases (equal part [] || equal part (codes "."))) [
    | inl k ↦ rw (e, k) (push_name-components [] d cs name)
    | inr k ↦ rw (e, k) (ap (◌∷◌ part) (push_name-components [] d cs name))
  ]
  | inr e ↦ rw e (push_name-components (part ++ c ∷ []) d cs name)
]

push_name-is_absolute :
    (c : ℕ) (cs name : Bytes) → is_absolute (push_name (c ∷ cs) name) ≡ is_absolute (c ∷ cs)
unfolding push_name
push_name-is_absolute c [] name = ground arith
push_name-is_absolute c (d ∷ cs) name = refl

-- The text of a joined path is the join of the paths.
pub push-join : (base name : Bytes) → path_of (push base name) ≡ join (path_of base) name
unfolding push path_of join
push-join [] name = elim (Bool-cases (is_absolute name)) [ inl e ↦ simp e | inr e ↦ simp e ]
push-join (c ∷ cs) name = elim (Bool-cases (is_absolute name)) [
  | inl e ↦ simp e
  | inr e ↦ rw e (
      ap₂ (λ a ps. record { absolute = a; parts = ps }) (push_name-is_absolute c cs name)
        (push_name-components [] c cs name))
]

socket_dir_text-path : (env : Env) → path_of (socket_dir_text env) ≡ socket_dir env
unfolding socket_dir_text socket_dir
socket_dir_text-path env = elim (Option-cases env.pterm_socket_dir) [
  | inr (name, e) ↦
      let text : socket_dir_text env ≡ name = rw e in
      let path : socket_dir env ≡ path_of name = rw e in ap path_of text ∙ sym path
  | inl e ↦ elim (Option-cases env.xdg_runtime_dir) [
    | inr (runtime_dir, f) ↦
        let text : socket_dir_text env ≡ push runtime_dir (codes "pterm") = rw (e, f) in
        let path : socket_dir env ≡ join (path_of runtime_dir) (codes "pterm") = rw (e, f) in
        ap path_of text ∙ push-join runtime_dir (codes "pterm") ∙ sym path
    | inl f ↦
        let name = codes "/tmp/pterm-" ++ to_string env.uid in
        let text : socket_dir_text env ≡ name = rw (e, f) in
        let path : socket_dir env ≡ path_of name = rw (e, f) in ap path_of text ∙ sym path
  ]
]

pub socket_path_text-path :
    (env : Env) (name : Bytes) → path_of (socket_path_text env name) ≡ session_socket_path env name
unfolding socket_path_text session_socket_path
socket_path_text-path env name =
    push-join (push (socket_dir_text env) name) socket_filename
    ∙ ap (λ p. join p socket_filename)
        (push-join (socket_dir_text env) name ∙ ap (λ p. join p name) (socket_dir_text-path env))
