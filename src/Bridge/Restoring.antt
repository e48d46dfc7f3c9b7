-- ===== src/Bridge/Restoring.antt =====
-- src/bridge.rs: what `run` leaves of the settings of stdin.
use pterm.Common.{
  or_false, or_true, if◌then◌else◌, Bool-cases, All, ℕ, ◌≡◌, refl, sym, ap, subst, ◌∙◌, ◌≢◌, inl,
  inr, Bool, true, false, not, ◌&&◌, ◌||◌, Option, none, some, List, [], ◌∷◌,
}
use pterm.Bridge.{Bridge}
use pterm.Bridge.Run.{Round, Exit, running, io_error}
use pterm.Bridge.Run
use pterm.Bridge.Terminal.{
  run, drop_guard, set_mode, enter, leave, set_up, after_enter, guarded, Setup, Stdin,
}

module _ (Mode : Type 0) where
  module _ (cfmakeraw : Mode → Mode) where
    set_mode-All :
        (mode : Mode) (sets : List Bool) (t : Stdin Mode)
        → All (λ done. done ≡ true) sets
        → (rest : List Bool) × (set_mode Mode mode sets t
            ≡ (true, record t { mode = mode; sets = rest }))
          × All (λ done. done ≡ true) rest
    unfolding set_mode
    set_mode-All mode [] t h = ([], refl, tt)
    set_mode-All mode (true ∷ sets) t (e, h) = (sets, refl, h)
    set_mode-All mode (false ∷ sets) t (e, h) = cc

    -- The settings that a guard brings back.
    abbrev back : Option Mode → Mode → Mode
    back none mode = mode
    back (some original) mode = original

    -- What a run that has returned leaves.
    abbrev Left : Mode → Bool → Stdin Mode → Type 0
    Left mode nonblocking t = (t.mode ≡ mode) × (t.nonblocking ≡ nonblocking)

    drop_guard-Left :
        (guard : Option Mode) (t : Stdin Mode)
        → All (λ done. done ≡ true) t.sets
        → Left (back guard t.mode) t.nonblocking (drop_guard Mode cfmakeraw guard t)
    unfolding drop_guard
    drop_guard-Left none t h = (refl, refl)
    drop_guard-Left (some original) t h =
        let (rest, e, _) = set_mode-All original t.sets t h in
        (ap (λ r. r.1.mode) e, ap (λ r. r.1.nonblocking) e)

    leave-Left :
        (exit : Exit) (guard : Option Mode) (t : Stdin Mode)
        → All (λ done. done ≡ true) t.sets
        → exit ≢ running
        → Left (back guard t.mode) t.nonblocking (leave Mode cfmakeraw exit guard t)
    unfolding leave
    leave-Left running guard t h n = absurd (n refl)
    leave-Left (Run.code c) guard t h n = drop_guard-Left guard t h
    leave-Left io_error guard t h n = drop_guard-Left guard t h

    -- The open file's mode once `set_up` is done.
    abbrev nonblocking_after : Setup → Stdin Mode → Bool
    nonblocking_after setup t = t.nonblocking || (setup.pipe && setup.connects)

    set_up-Left :
        (setup : Setup) (t : Stdin Mode)
        → ((set_up Mode cfmakeraw setup t).0.mode ≡ t.mode)
          × ((set_up Mode cfmakeraw setup t).0.sets ≡ t.sets)
          × ((set_up Mode cfmakeraw setup t).0.nonblocking ≡ nonblocking_after setup t)
    unfolding set_up
    set_up-Left setup t = elim (Bool-cases (setup.pipe && setup.connects)) [
      | inr off ↦ rw off (refl, refl, sym (or_false t.nonblocking))
      | inl on ↦ rw on (refl, refl, sym (or_true t.nonblocking))
    ]

    guarded-Left :
        (main : Bridge → Bridge × Exit) (setup : Setup) (guard : Option Mode) (t : Stdin Mode)
        (b : Bridge)
        → All (λ done. done ≡ true) t.sets
        → (guarded Mode cfmakeraw main setup guard t b).1 ≢ running
        → Left
            (back guard t.mode)
            (nonblocking_after setup t)
            (guarded Mode cfmakeraw main setup guard t b).0.0
    unfolding guarded
    guarded-Left main setup guard t b h n =
        let t' = (set_up Mode cfmakeraw setup t).0 in
        let (mode, sets, nonblocking) = set_up-Left setup t in
        let all : All (λ done. done ≡ true) t'.sets = rw sets h in
        let left : (u : Stdin Mode)
            → Left (back guard t'.mode) t'.nonblocking u
            → Left (back guard t.mode) (nonblocking_after setup t) u =
          λ u l. (l.0 ∙ ap (back guard) mode, l.1 ∙ nonblocking) in
        elim (Bool-cases (set_up Mode cfmakeraw setup t).1) [
          | inl succeeds ↦
              rw (succeeds, guarded)
                (left (leave Mode cfmakeraw (main b).1 guard t')
                  (leave-Left (main b).1 guard t' all (λ e. n (rw (succeeds, guarded) e))))
          | inr fails ↦
              rw (fails, guarded)
                (left (drop_guard Mode cfmakeraw guard t') (drop_guard-Left guard t' all))
        ]

    enter-gets :
        (t : Stdin Mode)
        → All (λ done. done ≡ true) t.sets
        → t.gets ≡ true
        → (rest : List Bool) × (enter Mode cfmakeraw t
            ≡ (some t.mode, record t { mode = cfmakeraw t.mode; sets = rest }))
          × All (λ done. done ≡ true) rest
    unfolding enter
    enter-gets t h gets =
        let (rest, e, all) = set_mode-All (cfmakeraw t.mode) t.sets t h in
        (rest, simp (gets, ap (λ r. r.0) e, ap (λ r. r.1) e) refl, all)

    enter-fails : (t : Stdin Mode) → t.gets ≡ false → enter Mode cfmakeraw t ≡ (none, t)
    unfolding enter
    enter-fails t fails = simp fails refl

    -- Whether a run gets as far as changing the open file's mode.
    abbrev pub gets_there : Setup → Stdin Mode → Bool
    gets_there setup t = (not t.is_tty || t.gets) && (setup.pipe && setup.connects)

    gets_there-on :
        (setup : Setup) (t : Stdin Mode)
        → (not t.is_tty || t.gets) ≡ true
        → (t.nonblocking || (setup.pipe && setup.connects)) ≡ (t.nonblocking || gets_there setup t)
    gets_there-on setup t e = simp e refl

    abbrev Restored : Setup → Stdin Mode → (Stdin Mode × Bridge) × Exit → Type 0
    Restored setup t r =
        r.1 ≢ running
        → (r.0.0.mode ≡ t.mode) × (r.0.0.nonblocking ≡ (t.nonblocking || gets_there setup t))

    after_enter-Restored :
        (main : Bridge → Bridge × Exit) (setup : Setup) (t : Stdin Mode) (b : Bridge)
        → All (λ done. done ≡ true) t.sets
        → t.is_tty ≡ true
        → Restored setup t (after_enter Mode cfmakeraw main setup (enter Mode cfmakeraw t) b)
    unfolding after_enter
    after_enter-Restored main setup t b h tty = elim (Bool-cases t.gets) [
      | inr fails ↦
          subst (λ r. Restored setup t (after_enter Mode cfmakeraw main setup r b))
            (sym (enter-fails t fails))
            (λ n. (refl, simp (tty, fails) (sym (or_false t.nonblocking))))
      | inl gets ↦
          let (rest, e, all) = enter-gets t h gets in
          subst (λ r. Restored setup t (after_enter Mode cfmakeraw main setup r b)) (sym e)
            (λ n.
              let raw : Stdin Mode = record t { mode = cfmakeraw t.mode; sets = rest } in
              let (mode, nonblocking) = guarded-Left main setup (some t.mode) raw b all n in
              (mode, nonblocking ∙ gets_there-on setup t (simp (tty, gets) refl)))
    ]

    -- Where each tcsetattr succeeds and run returns, with a code or an I/O error, from whichever
    -- call: the terminal has its settings of before, and O_NONBLOCK is set on the open file of
    -- stdin if it was before or if run got as far as the connection.
    pub run-restores :
        (setup : Setup) (cols rows : Option ℕ) (winsize : Option (ℕ × ℕ)) (rounds : List Round)
        (t : Stdin Mode) (b : Bridge)
        → All (λ done. done ≡ true) t.sets
        → (run Mode cfmakeraw setup cols rows winsize rounds t b).1 ≢ running
        → ((run Mode cfmakeraw setup cols rows winsize rounds t b).0.0.mode ≡ t.mode)
          × ((run Mode cfmakeraw setup cols rows winsize rounds t b).0.0.nonblocking
              ≡ (t.nonblocking || gets_there setup t))
    unfolding run
    run-restores setup cols rows winsize rounds t b h =
        let main = Run.run cols rows winsize rounds in
        let file = guarded Mode cfmakeraw main setup none t b in
        let tty = after_enter Mode cfmakeraw main setup (enter Mode cfmakeraw t) b in
        elim (Bool-cases t.is_tty) [
          | inr e ↦
              subst (λ x. Restored setup t (if x then tty else file)) (sym e)
                (λ n.
                  let (mode, nonblocking) = guarded-Left main setup none t b h n in
                  (mode, nonblocking ∙ gets_there-on setup t (simp e refl)))
          | inl e ↦
              subst (λ x. Restored setup t (if x then tty else file)) (sym e)
                (after_enter-Restored main setup t b h e)
        ]
