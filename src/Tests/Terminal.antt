-- ===== src/Tests/Terminal.antt =====
-- src/bridge.rs, the terminal of the bridge on concrete steps.
use pterm.Common.{
  pos, ℕ, ◌-◌, ◌≤◌, ◌≡◌, refl, sym, ◌∙◌, ◌≢◌, ◌⊎◌, true, false, none, [], ◌∷◌, arith,
}
use pterm.Bridge.{Bridge}
use pterm.Bridge.Run.{running, Round, failed, io_error, polled}
use pterm.Bridge.Run
use pterm.Bridge.Settling.{Serves, rests, further, steps_left, Serves-settles}
use pterm.Bridge.Sizes.{IsQuiet}
use pterm.Bridge.Restoring.{run-restores}
use pterm.Bridge.Terminal.{Setup, Stdin, run}
use pterm.Bridge.Wake.{
  resized, store, write_wake, take_size, send_size, Wake, Serve, deliver, write, takes, sends,
  resize, here, next, connected, waiting,
}

-- Settings as numbers, of which the lowest bit is what raw mode clears.
abbrev cfmakeraw : ℕ → ℕ
cfmakeraw mode = mode - 1

abbrev stdin : Stdin ℕ
stdin = record { is_tty = true; mode = 5; gets = true; sets = true ∷ []; nonblocking = false }

abbrev setup : Setup
setup = record { pipe = true; connects = true; polls = true }

abbrev bridge : Bridge
bridge = record {
  recv_buf = [];
  exit_code = pos 0;
  stdout_writes = [];
  stdout = [];
  socket_writes = [];
  socket = [];
}

ran : (run ℕ cfmakeraw setup none none none (failed ∷ []) stdin bridge).1 ≡ io_error
unfolding run Run.run
ran = refl

io_error-running : io_error ≢ running
io_error-running e = cc

run-restores_example :
    ((run ℕ cfmakeraw setup none none none (failed ∷ []) stdin bridge).0.0.mode ≡ 5)
    × ((run ℕ cfmakeraw setup none none none (failed ∷ []) stdin bridge).0.0.nonblocking ≡ true)
run-restores_example =
    run-restores ℕ cfmakeraw setup none none none (failed ∷ []) stdin bridge (refl, tt)
      (λ e. io_error-running (sym ran ∙ e))

-- The terminal gets another size while the first RESIZE is under way, whose size has not been taken.
abbrev resized_early : Wake
resized_early = record (connected (80, 24) (0, 0)) { size = (100, 40); signal = true }

abbrev handled : Wake
handled = record resized_early { signal = false; flag = true; pipe = 1 }

abbrev told : Wake
told = record handled { loop = waiting; sent = (100, 40) }

-- The handler, and then the first RESIZE.
four_steps : Serves 65536 resized_early 4 told
unfolding store write_wake take_size send_size
four_steps =
    further
      (further (further (further rests (deliver resized_early refl refl)) (write _ refl))
        (takes handled refl refl))
      (sends _ (100, 40) refl refl)

Serves-settles_example :
    (4 ≤ steps_left resized_early)
    × ((IsQuiet told × (told.sent ≡ resized_early.size)) ⊎ ((u : Wake) × Serve 65536 told u))
unfolding resized
Serves-settles_example =
    Serves-settles {capacity = 65536} (omega arith)
      (next here (resize (connected (80, 24) (0, 0)) (100, 40))) four_steps
