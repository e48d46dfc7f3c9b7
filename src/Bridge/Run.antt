-- ===== src/Bridge/Run.antt =====
-- src/bridge.rs, `run`: the main loop, as a sequence of rounds, with what stands before and behind it.
use pterm.Common.{if◌then◌else◌, ℤ, ℕ, Bool, true, false, Option, List, [], ◌∷◌}
use pterm.Bridge.{Bridge, send, initial_size, resize_message, on_socket, on_stdin, on_wake, finish}
use pterm.Io.{Read}

-- An event, with what the reads of its handler give. A wake-up says whether a SIGWINCH came, and the
-- size of the terminal if it can be read.
pub data Event : Type 0 where
  token_stdin token_socket : List Read → Event
  token_wake : Bool → Option (ℕ × ℕ) → Event

-- A round finds the poll interrupted or failing, or gets some events.
pub data Round : Type 0 where
  interrupted failed : Round
  polled : List Event → Round

-- Where the loop has come to: `left` is a `break 'main`.
pub data Progress : Type 0 where
  going left poll_failed : Progress

unfoldable pub on_event : Event → Bridge → Bridge × Bool
unfolding on_socket on_stdin on_wake
on_event (token_stdin answers) b = on_stdin answers b
on_event (token_socket answers) b = on_socket answers b
on_event (token_wake sigwinch winsize) b = (on_wake sigwinch winsize b, false)

-- The events of a round, up to a `break 'main`.
unfoldable pub on_events : List Event → Bridge → Bridge × Bool
unfolding on_event
on_events [] b = (b, false)
on_events (event ∷ events) b =
    let (b', leaves) = on_event event b in
    let rest = on_events events b' in if leaves then (b', true) else rest

unfoldable pub main_loop : List Round → Bridge → Bridge × Progress
unfolding on_events
main_loop [] b = (b, going)
main_loop (interrupted ∷ rounds) b = main_loop rounds b
main_loop (failed ∷ rounds) b = (b, poll_failed)
main_loop (polled events ∷ rounds) b =
    let (b', leaves) = on_events events b in
    let rest = main_loop rounds b' in if leaves then (b', left) else rest

-- What `run` returns, where it does: an I/O error leaves the terminal as it is.
pub data Exit : Type 0 where
  code : ℤ → Exit
  io_error running : Exit

abbrev pub ends : Bridge × Progress → Bridge × Exit
ends (b, going) = (b, running)
ends (b, left) = (finish b, code b.exit_code)
ends (b, poll_failed) = (b, io_error)

-- `run` from a connected socket on.
unfoldable pub run : Option ℕ → Option ℕ → Option (ℕ × ℕ) → List Round → Bridge → Bridge × Exit
unfolding send initial_size resize_message main_loop finish
run cols rows winsize rounds b =
    let (sent, b') = send (resize_message (initial_size cols rows winsize)) b in
    if sent then ends (main_loop rounds b') else (b', io_error)
