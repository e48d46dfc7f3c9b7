-- ===== src/System/Serve.antt =====
-- src/main.rs, the daemon that cmd_new starts, on src/pty.rs, src/session.rs and src/server.rs together.
use pterm.Server.Sound.{IsSound, run-IsSound}
use pterm.Common.{
  is_none, not, ap, refl, ◌⊎◌, sym, inr, inl, Option-cases, ◌≡◌, Bool, false, none, some, List, [],
  ◌∷◌,
}
use pterm.Commands.{World, Start}
use pterm.Commands.Daemon.{Listening, bind}
use pterm.Io.{Io, ok, err, panic, waiting, other}
use pterm.Pty.{Pty, Os, Files, Opened, spawn}
use pterm.Session
use pterm.Session.Reading
use pterm.Callbacks.Invariant.{initial-IsValid}
use pterm.Filter.Account.{initial-IsWellFormed}
use pterm.Session.{default_terminal_rows, default_terminal_cols, Session}
use pterm.Server.{Server}
use pterm.Server.Run.{Round, run}
use pterm.Vt.{Vt100}

List-cases : {A : Type 0} (xs : List A) → (xs ≡ []) ⊎ ((x : A) × (ys : List A) × (xs ≡ x ∷ ys))
List-cases [] = inl refl
List-cases (x ∷ xs) = inr (x, xs, refl)

module _ (vt : Vt100) where
  -- `Server::new` on its socket.
  unfoldable pub new_server : Session vt → Server vt
  new_server session = record {
    session = session;
    clients = [];
    next_client_id = 0;
    pending_pty_output = [];
    exit_sent = false;
  }

  -- The daemon on its PTY: its socket, then its event loop.
  unfoldable pub serve_session :
      Listening → World → Start → List Round → Session vt → Io (Server vt × Bool)
  unfolding new_server
  serve_session net world start rounds session =
      let result = run vt rounds (new_server session) in
      elim (bind net world start.sess_dir) [ none ↦ err other | some tree ↦ result ]

  unfoldable pub serve_pty :
      Listening → World → Start → List Round → Io Opened → Io (Server vt × Bool)
  unfolding serve_session
  serve_pty net world start rounds (ok opened) =
      serve_session net world start rounds (Session.new_session vt opened.pty)
  serve_pty net world start rounds (err e) = err e
  serve_pty net world start rounds panic = panic
  serve_pty net world start rounds waiting = waiting

  -- The command's first word is the program, and the whole its arguments.
  unfoldable pub serve :
      Os → Listening → Pty → Files → World → Start → List Round → Io (Server vt × Bool)
  unfolding serve_pty
  serve os net pty files world start rounds = elim start.command [
    | [] ↦ panic
    | cmd ∷ args ↦
        let spawned =
          spawn os cmd (cmd ∷ args) default_terminal_cols default_terminal_rows pty files in
        serve_pty net world start rounds spawned.result
  ]

  pub new_server-IsSound :
      (session : Session vt)
      → session.exited ≡ none
      → Reading.IsValid vt session
      → IsSound vt (new_server session)
  unfolding new_server
  new_server-IsSound session e v = record {
    valid = v;
    ids = record { distinct = tt; below = tt };
    reaped = sym (ap (λ o. not (is_none o)) e);
    quiet = refl;
  }

  serve_pty-IsSound :
      (net : Listening) (world : World) (start : Start) (rounds : List Round) (opened : Io Opened)
      (s : Server vt) (ended : Bool)
      → serve_pty net world start rounds opened ≡ ok (s, ended)
      → IsSound vt s
  unfolding serve_pty Session.new_session
  serve_pty-IsSound net world start rounds (ok opened) s ended h =
      elim (Option-cases (bind net world start.sess_dir)) [
        | inl e ↦ cc (rw (e, serve_session) at h)
        | inr (tree, e) ↦
            run-IsSound vt rounds _ s ended
              (new_server-IsSound (Session.new_session vt opened.pty) refl
                (record { callbacks = initial-IsValid; output_filter = initial-IsWellFormed }))
              (rw (e, serve_session) at h)
      ]
  serve_pty-IsSound net world start rounds (err e) s ended h = cc
  serve_pty-IsSound net world start rounds panic s ended h = cc
  serve_pty-IsSound net world start rounds waiting s ended h = cc

  -- Whatever the operating system answers: if a daemon, from its start on its PTY and its socket,
  -- returns from some rounds of its event loop, then the ids of its clients are distinct and below
  -- the next one, the EXIT is marked as sent just if an exit code is known, no output is pending,
  -- and the session is valid: its callbacks are, and its filter is well formed.
  pub serve-IsSound :
      (os : Os) (net : Listening) (pty : Pty) (files : Files) (world : World) (start : Start)
      (rounds : List Round) (s : Server vt) (ended : Bool)
      → serve os net pty files world start rounds ≡ ok (s, ended)
      → IsSound vt s
  unfolding serve
  serve-IsSound os net pty files world start rounds s ended h = elim (List-cases start.command) [
    | inl e ↦ cc (rw (e, serve) at h)
    | inr (cmd, words, e) ↦ serve_pty-IsSound net world start rounds _ s ended (rw (e, serve) at h)
  ]
