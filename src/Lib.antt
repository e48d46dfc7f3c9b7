-- ===== src/Lib.antt =====
-- pterm keeps a terminal session alive in a daemon and connects clients to it. The daemon
-- (src/server.rs) owns a session (src/session.rs): a PTY with a child process and a vt100 screen. A
-- bridge (src/bridge.rs) connects a client's terminal to the daemon's socket. Both speak the frames of
-- proto/src/lib.rs.
--
-- Parts:
--   Common     lists over the native ℕ, integers, texts
--   Proto      proto/src/lib.rs: `encode`, `decode_frames`, and the RESIZE and EXIT payloads
--   Filter     src/session.rs, `TerminalOutputFilter`: removes terminal queries from PTY output
--   Kitty      src/session.rs, `KittyKeyboardState`, and the match of `update_kitty_keyboard_state`
--   Callbacks  src/session.rs, `SessionCallbacks`: the handlers that vt100 calls
--   Vt         the vt100 library as an interface, and `impl vt100::Callbacks`
--   Snapshot   src/session.rs, `build_snapshot`
--   Io         what the system calls answer, and the results of the program's own calls
--   Pty        src/pty.rs: `Pty::spawn` in the daemon and in the child, and `Pty::resize`
--   Session    src/session.rs, `Session`
--   Server     src/server.rs: Broadcast has what is sent to all clients, Handlers the event handlers,
--              Run the event loop; Stable has what carries a relation over the handlers, Held what
--              carries a property over the loop, Sound the invariants together
--   Bridge     src/bridge.rs: the handlers of the three event sources; Run has the main loop and what
--              stands before and behind it, Terminal the settings of the terminal around it, Wake the
--              signal handler with the main loop
--   Paths      src/paths.rs, over a tree of files: Files has the calls of the file system,
--              Text the paths as they are printed
--   Commands   src/main.rs: the commands; Daemon has `Server::new`, Args the loops over the arguments,
--              Wait `wait_for_socket`, Main the choice of the command
--   System     a daemon and a bridge at the two ends of a socket: output one way, keys the other (Typing),
--              a new size (Resizing), the exit code behind the output (Leaving); the daemon from its
--              start (Serve), at a kill and at its end (Ending)
--   Tests      runs on concrete inputs
--
-- How the parts interact: the server reads the PTY through the session, which feeds the bytes to vt100
-- and returns them filtered; vt100 calls the callbacks, whose state, with the screen, a snapshot
-- writes out; the server queues snapshots and output for its clients as frames; the bridge decodes
-- them and prints their payloads. The commands find a daemon by its socket in the file system: `new`
-- makes a session's directory, the daemon the socket in it, `list` looks for sockets, and `kill`
-- removes the directory, which the daemon takes for its end.
--
-- The daemon and a client take turns in the order of the events that a theorem gives. The bridge's signal
-- handler may interrupt its main loop between any two calls: Wake is a step relation, and its theorems
-- hold of every order of the steps. The daemon's map of clients is a list of pairs.
--
-- State is passed explicitly: an operation takes a record and returns the new one. Byte strings are
-- lists of ℕ, Strings their UTF-8 bytes. u16 and u32 are ℕ with the wrap-around written out where
-- the code can meet it; i32 is ℤ. A `usize` has no bound, since a buffer cannot outgrow the memory.
-- `Io` has a value for a panic and one for a loop that waits for more answers.
--
-- vt100 and `String::from_utf8_lossy` are an argument, the record `Vt100`. What a system call answers
-- is an argument too: the list of answers to `read`, `write` or `accept`, or a flag.
--
-- The file system is a tree without symbolic links, in which `..` takes the name before it. A call fails
-- where the tree does not allow it or a directory cannot be read; permissions are not modelled beyond
-- that. What else lets a daemon make its socket, as a path that is short enough, is an answer of the
-- operating system, the record `Listening`. `remove_dir_all` removes the whole or, where it fails,
-- leaves any tree.
--
-- Fuel: `decode_frames` runs its loop with one more than the length of the buffer as fuel, which is
-- enough, as each round takes at least a header of five bytes. `clean_parents` has as many rounds as
-- the path has names, which is enough, as each takes one. `write_loop`, `flush_loop`, `main_loop` and
-- the other loops over system calls recurse on the answers, all other loops on a list or a count.
--
-- Not modelled: log and error messages, the usage text and the JSON line of `new`; the poll, but for
-- whether it and the registrations fail; what fork and setsid do to the process of `new`; what the
-- operating system does with a controlling terminal and with the flags of the PTY; the Lua plug-in.
pub mod Common
pub mod Proto
pub mod Filter
pub mod Kitty
pub mod Callbacks
pub mod Vt
pub mod Snapshot
pub mod Io
pub mod Pty
pub mod Session
pub mod Server
pub mod Bridge
pub mod Paths
pub mod Commands
pub mod System
pub mod Tests
