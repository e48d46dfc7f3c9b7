-- ===== src/Server/Sound.antt =====
-- src/server.rs, `run`: what holds of the server between any two of its events.
use pterm.Server.Quiet.{IsQuiet, on_events-IsQuiet, run-IsQuiet}
use pterm.Server.Valid.{HasValidSession, run-HasValidSession, on_events-HasValidSession}
use pterm.Server.Reaped.{IsReaped, on_events-IsReaped, run-IsReaped}
use pterm.Server.RunIds.{HasValidIds, on_events-HasValidIds, run-HasValidIds}
use pterm.Server.Run.{Event, Round, run, on_events}
use pterm.Server.{Server}
use pterm.Io.{ok}
use pterm.Vt.{Vt100}
use pterm.Common.{◌≡◌, Bool, List}

module _ (vt : Vt100) where
  pub record IsSound (s : Server vt) : Type 0 where
    pub ids : HasValidIds vt s
    pub reaped : IsReaped vt s
    pub quiet : IsQuiet vt s
    pub valid : HasValidSession vt s

  pub on_events-IsSound :
      (events : List Event) (s s' : Server vt)
      → IsSound s
      → on_events vt events s ≡ ok s'
      → IsSound s'
  on_events-IsSound events s s' i h = record {
    ids = on_events-HasValidIds vt events s s' i.ids h;
    reaped = on_events-IsReaped vt events s s' i.reaped h;
    quiet = on_events-IsQuiet vt events s s' i.quiet h;
    valid = on_events-HasValidSession vt events s s' i.valid h;
  }

  pub run-IsSound :
      (rounds : List Round) (s s' : Server vt) (ended : Bool)
      → IsSound s
      → run vt rounds s ≡ ok (s', ended)
      → IsSound s'
  run-IsSound rounds s s' ended i h = record {
    ids = run-HasValidIds vt rounds s s' ended i.ids h;
    reaped = (run-IsReaped vt rounds s s' ended i.reaped h).0;
    quiet = run-IsQuiet vt rounds s s' ended i.quiet h;
    valid = run-HasValidSession vt rounds s s' ended i.valid h;
  }
