-- ===== src/Kitty/Replay.antt =====
-- What a terminal with the same keyboard protocol makes of the sequences that a snapshot writes.
use pterm.Common.{
  ℕ, ◌+◌, ◌<◌, ◌≤◌, ◌≡◌, refl, subst, ap, ◌∙◌, arith, Bool-cases, inl, inr, not, List, [], ◌∷◌,
  ◌++◌, append-nil, append_assoc, none, some, Option-cases, ==_iff, ◌==◌, if◌then◌else◌, length,
  length-append, Bytes, codes, to_string, pop_back,
}
use pterm.Kitty.{
  KittyKeyboardState, max_stack_depth, update, pop_entries, csi, push_set_mode, push_stack,
  push_stacks, append_entries, append_snapshot,
}
use pterm.Kitty.Stack.{drop_oldest-fits, pop_back-none}

pub data Command : Type 0 where
  pop : Command
  reset : Command
  set : ℕ → Command
  push : ℕ → Command

abbrev pub command_bytes : Command → Bytes
command_bytes pop = csi "<u"
command_bytes reset = csi "=0u"
command_bytes (set flags) = csi "=" ++ to_string flags ++ codes ";1u"
command_bytes (push flags) = csi ">" ++ to_string flags ++ codes "u"

-- A terminal handles a command as the callbacks do.
abbrev pub handle : Command → KittyKeyboardState → KittyKeyboardState
handle pop s = (update (some b'<') [] s).0
handle reset s = (update (some b'=') ((0 ∷ []) ∷ []) s).0
handle (set flags) s = (update (some b'=') ((flags ∷ []) ∷ (1 ∷ []) ∷ []) s).0
handle (push flags) s = (update (some b'>') ((flags ∷ []) ∷ []) s).0

abbrev pub render : List Command → Bytes
render [] = []
render (c ∷ cs) = command_bytes c ++ render cs

abbrev pub replay : List Command → KittyKeyboardState → KittyKeyboardState
replay [] s = s
replay (c ∷ cs) s = replay cs (handle c s)

abbrev set_if : ℕ → List Command → List Command
set_if flags rest = if not (flags == 0) then set flags ∷ rest else rest

pushes : List ℕ → ℕ → List Command
pushes [] flags = push flags ∷ []
pushes (x ∷ xs) flags = push x ∷ pushes xs flags

entries : ℕ → List ℕ → List Command
entries flags [] = set_if flags []
entries flags (first ∷ rest) = set_if first (pushes rest flags)

unfoldable pub commands : KittyKeyboardState → List Command
unfolding entries pushes
commands s = pop ∷ reset ∷ entries s.flags s.stack

push_stacks-render :
    (xs : List ℕ) (flags : ℕ) (snapshot : Bytes)
    → push_stack (push_stacks snapshot xs) flags ≡ snapshot ++ render (pushes xs flags)
unfolding push_stacks push_stack pushes
push_stacks-render [] flags snapshot = simp (append_assoc, append-nil)
push_stacks-render (x ∷ xs) flags snapshot =
    push_stacks-render xs flags (push_stack snapshot x) ∙ simp append_assoc

append_entries-render :
    (flags : ℕ) (stack : List ℕ) (snapshot : Bytes)
    → append_entries snapshot flags stack ≡ snapshot ++ render (entries flags stack)
unfolding append_entries entries
append_entries-render flags [] snapshot = elim (Bool-cases (flags == 0)) [
  | inl zero_flags ↦ rw (zero_flags, append-nil)
  | inr other ↦ rw other (unfold push_set_mode in simp (append_assoc, append-nil))
]
append_entries-render flags (first ∷ rest) snapshot = elim (Bool-cases (first == 0)) [
  | inl zero_flags ↦ rw zero_flags (push_stacks-render rest flags snapshot)
  | inr other ↦ rw other (
      push_stacks-render rest flags (push_set_mode snapshot first)
      ∙ unfold push_set_mode in simp append_assoc)
]

-- append_snapshot writes, behind what the buffer has, the commands that rebuild the keyboard state:
-- a pop, a reset, and the entries.
pub append_snapshot-render :
    (s : KittyKeyboardState) (snapshot : Bytes)
    → append_snapshot s snapshot ≡ snapshot ++ render (commands s)
unfolding append_snapshot commands
append_snapshot-render s snapshot = append_entries-render s.flags s.stack _ ∙ simp append_assoc

replay-pushes :
    (xs : List ℕ) (flags : ℕ) (t : KittyKeyboardState)
    → length t.stack + length xs < max_stack_depth
    → replay (pushes xs flags) t ≡ record { flags = flags; stack = t.stack ++ (t.flags ∷ xs) }
unfolding pushes update
replay-pushes [] flags t h = rw (
    drop_oldest-fits (t.stack ++ t.flags ∷ [])
      (omega (arith, length-append t.stack (t.flags ∷ []))))
replay-pushes (x ∷ xs) flags t h =
    let stack = t.stack ++ t.flags ∷ [] in
    let len = length-append t.stack (t.flags ∷ []) in
    ap (λ (st : List ℕ). replay (pushes xs flags) (record { flags = x; stack = st }))
      (drop_oldest-fits stack (omega (arith, len)))
    ∙ replay-pushes xs flags (record { flags = x; stack = stack }) (omega (arith, len))
    ∙ rw append_assoc

-- What one pop leaves of a stack.
abbrev pub below : List ℕ → List ℕ
below stack = elim (pop_back stack) [ none ↦ [] | some (rest, _) ↦ rest ]

replay-entries :
    (flags : ℕ) (stack left : List ℕ)
    → length left + length stack ≤ max_stack_depth
    → replay (entries flags stack) (record { flags = 0; stack = left })
      ≡ record { flags = flags; stack = left ++ stack }
unfolding entries
replay-entries flags [] left h = elim (Bool-cases (flags == 0)) [
  | inl z ↦ rw (z, (==_iff flags 0).0 z, append-nil)
  | inr other ↦ rw (other, append-nil) (unfold update in refl)
]
replay-entries flags (first ∷ rest) left h =
    let opened : KittyKeyboardState = record { flags = first; stack = left } in
    let pushed = replay-pushes rest flags opened (omega arith) in
    elim (Bool-cases (first == 0)) [
      | inl z ↦ rw z (
          subst
            (λ n.
              replay (pushes rest flags) (record { flags = n; stack = left })
              ≡ record { flags = flags; stack = left ++ first ∷ rest })
            ((==_iff first 0).0 z) pushed)
      | inr other ↦ rw other (unfold update in pushed)
    ]

handle-pop_reset :
    (t : KittyKeyboardState)
    → handle reset (handle pop t) ≡ record { flags = 0; stack = below t.stack }
unfolding update pop_entries
handle-pop_reset t = elim (Option-cases (pop_back t.stack)) [
  | inl e ↦ ground (arith, pop_back-none t.stack e)
  | inr (p, e) ↦ ground arith
]

-- Replaying the commands of a keyboard state in a terminal, whose stack less one entry fits the
-- depth with the stack replayed, restores the flags, and the stack on top of what one pop leaves of
-- the terminal's own stack.
pub replay-commands :
    (s t : KittyKeyboardState)
    → length (below t.stack) + length s.stack ≤ max_stack_depth
    → replay (commands s) t ≡ record { flags = s.flags; stack = below t.stack ++ s.stack }
unfolding commands
replay-commands s t h =
    ap (replay (entries s.flags s.stack)) (handle-pop_reset t)
    ∙ replay-entries s.flags s.stack (below t.stack) h
