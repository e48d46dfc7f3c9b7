-- ===== src/Pty/Files.antt =====
-- src/pty.rs: the descriptors that `Pty::spawn` leaves open in the daemon and in the child.
use pterm.Common.{
  Option, refl, inr, inl, Bool-cases, Option-cases, List, Bytes, some, ltb, none, if◌then◌else◌,
  arith, true, ◌≢◌, ◌≡◌, ℕ,
}
use pterm.Pty.{
  give_up, in_child, Pty, set_winsize, Spawned, spawn, Os, spawn_on, Child, Files, master, slave,
  Opened, redirect, close, open_at,
}
use pterm.Io.{Io, ok}

-- `openpty` gives two descriptors that were closed.
abbrev pub IsFree : ℕ → ℕ → Files → Type 0
IsFree master_fd slave_fd files =
    (master_fd ≢ slave_fd) × (files master_fd ≡ none) × (files slave_fd ≡ none)

-- The daemon's descriptors after a result: one more where it is a PTY.
abbrev left_open : Io Opened → Files → Files
left_open (ok opened) files = open_at opened.master_fd master files
left_open _ files = files

close-open :
    (m s : ℕ) (files : Files) (fd : ℕ)
    → IsFree m s files
    → close s (close m (open_at s slave (open_at m master files))) fd ≡ files fd
close-open m s files fd (h, f, g) = ground arith

close-slave :
    (m s : ℕ) (files : Files) (fd : ℕ)
    → IsFree m s files
    → close s (open_at s slave (open_at m master files)) fd ≡ open_at m master files fd
close-slave m s files fd (h, f, g) = ground arith

redirect-files :
    (m s : ℕ) (files : Files) (fd : ℕ)
    → IsFree m s files
    → redirect (true, true, true) s (close m (open_at s slave (open_at m master files))) fd
      ≡ (if ltb fd 3 then some slave else files fd)
unfolding redirect
redirect-files m s files fd (h, f, g) = ground arith

-- What `openpty` answers, where it answers.
abbrev pub GivesFree : Os → Files → Type 0
GivesFree os files = (m s : ℕ) → os.openpty ≡ some (m, s) → IsFree m s files

-- A child that has its three standard descriptors on the slave side, and else the daemon's.
abbrev pub IsRedirected : Files → Child → Type 0
IsRedirected files child = (fd : ℕ) → child.files fd ≡ (if ltb fd 3 then some slave else files fd)

-- A child, where the daemon got a PTY.
abbrev pub HasChild : Files → Io Opened → Option Child → Type 0
HasChild files (ok opened) (some child) = IsRedirected files child
HasChild files (ok opened) none = ⊥
HasChild files _ child = child ≡ none

-- What a call of `spawn` leaves open in both processes.
pub record Spawns (files : Files) (spawned : Spawned) : Type 0 where
  pub parent : (fd : ℕ) → spawned.files fd ≡ left_open spawned.result files fd
  pub child : HasChild files spawned.result spawned.child

give_up-Spawns :
    (m s : ℕ) (files : Files)
    → IsFree m s files
    → Spawns files (give_up (open_at s slave (open_at m master files)) m s)
give_up-Spawns m s files free = record { parent = λ fd. close-open m s files fd free; child = refl }

in_child-IsRedirected :
    (os : Os) (m s : ℕ) (cmd : Bytes) (args : List Bytes) (files : Files)
    → IsFree m s files
    → os.dups ≡ (true, true, true)
    → IsRedirected files (in_child os m s cmd args (open_at s slave (open_at m master files)))
unfolding in_child
in_child-IsRedirected os m s cmd args files free d fd = rw d (redirect-files m s files fd free)

spawn_on-Spawns :
    (os : Os) (m s : ℕ) (cmd : Bytes) (args : List Bytes) (cols rows : ℕ) (pty : Pty)
    (files : Files)
    → IsFree m s files
    → os.dups ≡ (true, true, true)
    → Spawns files
        (spawn_on os m s cmd args cols rows pty (open_at s slave (open_at m master files)))
unfolding spawn_on set_winsize
spawn_on-Spawns os m s cmd args cols rows pty files free d = elim (Bool-cases pty.resizable) [
  | inr e ↦ rw (e, set_winsize, spawn_on) (give_up-Spawns m s files free)
  | inl e ↦ elim (Option-cases os.fork) [
    | inl f ↦ simp (e, f, set_winsize, spawn_on) (give_up-Spawns m s files free)
    | inr (pid, f) ↦
        simp (e, f, set_winsize, spawn_on)
          (record {
            parent = λ fd. close-slave m s files fd free;
            child = in_child-IsRedirected os m s cmd args files free d;
          })
  ]
]

-- Where openpty gives two different descriptors that were closed, and dup2 succeeds: of a spawn
-- that fails the daemon keeps no descriptor and there is no child; of one that succeeds the daemon
-- keeps the master side alone, and the child has the slave side at 0, 1 and 2 and nowhere else, the
-- master side nowhere, and its other descriptors as the daemon had them.
pub spawn-Spawns :
    (os : Os) (cmd : Bytes) (args : List Bytes) (cols rows : ℕ) (pty : Pty) (files : Files)
    → GivesFree os files
    → os.dups ≡ (true, true, true)
    → Spawns files (spawn os cmd args cols rows pty files)
unfolding spawn
spawn-Spawns os cmd args cols rows pty files gives d = elim (Option-cases os.openpty) [
  | inl e ↦ simp (e, spawn) (record { parent = λ fd. refl; child = refl })
  | inr ((m, s), e) ↦
      simp (e, spawn) (spawn_on-Spawns os m s cmd args cols rows pty files (gives m s e) d)
]
