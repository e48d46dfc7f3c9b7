-- ===== src/Bridge/Terminal.antt =====
-- src/bridge.rs: the terminal settings of stdin around a run of the bridge, `RawModeGuard` among them.
--
-- The settings are nix's `Termios`, an argument with `cfmakeraw`. That `fcntl` fails is not modelled, as
-- the program does not look at its result.
use pterm.Common.{if◌then◌else◌, ℕ, Bool, true, false, ◌&&◌, Option, none, some, List, [], ◌∷◌}
use pterm.Bridge.{Bridge}
use pterm.Bridge.Run.{Round, Exit, running, io_error}
use pterm.Bridge.Run

-- What the calls before the main loop give: `pipe`, `connect` with the socket's mode, and the poll with
-- its registrations.
pub record Setup : Type 0 where
  pub pipe : Bool
  pub connects : Bool
  pub polls : Bool

module _ (Mode : Type 0) where
  -- `gets` is whether `tcgetattr` succeeds, `sets` whether each `tcsetattr` does, which it does where the
  -- list has ended. `nonblocking` is O_NONBLOCK of the open file.
  pub record Stdin : Type 0 where
    pub is_tty : Bool
    pub mode : Mode
    pub gets : Bool
    pub sets : List Bool
    pub nonblocking : Bool

  -- `tcsetattr`, and whether it succeeds.
  unfoldable pub set_mode : Mode → List Bool → Stdin → Bool × Stdin
  set_mode mode [] t = (true, record t { mode = mode; sets = [] })
  set_mode mode (true ∷ sets) t = (true, record t { mode = mode; sets = sets })
  set_mode mode (false ∷ sets) t = (false, record t { sets = sets })

  module _ (cfmakeraw : Mode → Mode) where
    -- `RawModeGuard::enter`: the guard keeps the settings of before.
    unfoldable pub enter : Stdin → Option Mode × Stdin
    unfolding set_mode
    enter t =
        let (done, t') = set_mode (cfmakeraw t.mode) t.sets t in
        if t.gets then ((if done then some t.mode else none), t') else (none, t)

    -- The drop of `_raw_guard`.
    unfoldable pub drop_guard : Option Mode → Stdin → Stdin
    unfolding set_mode
    drop_guard none t = t
    drop_guard (some original) t = (set_mode original t.sets t).1

    -- What stands between the guard and the first RESIZE, and whether it succeeds.
    unfoldable pub set_up : Setup → Stdin → Stdin × Bool
    set_up setup t =
        if setup.pipe && setup.connects
        then (record t { nonblocking = true }, setup.polls)
        else (t, false)

    -- A program that has not returned has dropped no guard.
    unfoldable pub leave : Exit → Option Mode → Stdin → Stdin
    unfolding drop_guard
    leave running guard t = t
    leave exit guard t = drop_guard guard t

    unfoldable pub guarded :
        (Bridge → Bridge × Exit) → Setup → Option Mode → Stdin → Bridge → (Stdin × Bridge) × Exit
    unfolding set_up leave
    guarded main setup guard t b =
        let (t', succeeds) = set_up setup t in
        let (b', exit) = main b in
        if succeeds then ((leave exit guard t', b'), exit) else ((drop_guard guard t', b), io_error)

    -- An error of `enter` ends the run with no guard.
    unfoldable pub after_enter :
        (Bridge → Bridge × Exit) → Setup → Option Mode × Stdin → Bridge → (Stdin × Bridge) × Exit
    unfolding guarded
    after_enter main setup (none, t) b = ((t, b), io_error)
    after_enter main setup (some original, t) b = guarded main setup (some original) t b

    -- `run`.
    unfoldable pub run :
        Setup
        → Option ℕ
        → Option ℕ
        → Option (ℕ × ℕ)
        → List Round
        → Stdin
        → Bridge
        → (Stdin × Bridge) × Exit
    unfolding enter after_enter
    run setup cols rows winsize rounds t b =
        let main = Run.run cols rows winsize rounds in
        if t.is_tty then after_enter main setup (enter t) b else guarded main setup none t b
