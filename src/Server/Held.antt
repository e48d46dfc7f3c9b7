-- ===== src/Server/Held.antt =====
-- src/server.rs, `run`: what holds of the server over the rounds of the event loop.
use pterm.Common.{
  Bool-cases, ℕ, ◌≡◌, inl, inr, Bool, true, false, Option, none, some, List, [], ◌∷◌,
}
use pterm.Session.{WaitStatus}
use pterm.Io.{err, Io-cases, Io, ok, Read}
use pterm.Vt.{Vt100}
use pterm.Server.{Server, is_err, flush_client_send_buf}
use pterm.Server.Handlers.{Accept, accept_client, handle_client_data}
use pterm.Server.Stable.{Stable, OkRelates, handle_pty_output-OkRelates, handle_client_data-relates}
use pterm.Server.Run.{
  path_missing, poll_failed, polled, pty_base, client, listener, Round, Event, run, end_of_round,
  on_events, on_event, on_readable, on_writable,
}

-- A property that a stable relation carries over, and that holds over the two other steps of a round.
pub record Held (vt : Vt100) (stable : Stable vt) : Type 1 where
  pub holds : Server vt → Type 0
  pub holds_on : {s s' : Server vt} → stable.relates s s' → holds s → holds s'
  pub accepts :
      (answers : List Accept) (s : Server vt) → holds s → holds (accept_client vt answers s).1
  pub ends : (status : WaitStatus) (s : Server vt) → holds s → holds (end_of_round vt status s).0

module _ (vt : Vt100) (stable : Stable vt) (held : Held vt stable) where
  open stable use {relates, stays, follows, removes, flushes_one}
  open held use {holds, holds_on, accepts, ends}

  abbrev OkHolds : Io (Server vt) → Type 0
  OkHolds (ok s) = holds s
  OkHolds _ = Unit

  on_readable-OkRelates :
      (id : ℕ) (readable : Option Read) (s : Server vt)
      → OkRelates vt stable s (on_readable vt id readable s)
  unfolding on_readable
  on_readable-OkRelates id none s = stays s
  on_readable-OkRelates id (some answer) s =
      let k = handle_client_data-relates vt stable id answer s in
      let s' = (handle_client_data vt id answer s).1 in
      elim (Io-cases (handle_client_data vt id answer s).0) [
        | inl (u, e) ↦ rw (e, OkRelates, on_readable) k
        | inr (inl (error, e)) ↦ rw (e, OkRelates, on_readable) (follows k (removes id s'))
        | inr (inr (inl e)) ↦ rw (e, OkRelates, on_readable) tt
        | inr (inr (inr e)) ↦ rw (e, OkRelates, on_readable) tt
      ]

  on_writable-relates :
      (id : ℕ) (writable : Bool) (s : Server vt) → relates s (on_writable vt id writable s)
  unfolding on_writable
  on_writable-relates id false s = stays s
  on_writable-relates id true s =
      let flushed = record s { clients = (flush_client_send_buf id s.clients).1 } in
      elim (Bool-cases (is_err (flush_client_send_buf id s.clients).0)) [
        | inl e ↦ rw (e, on_writable) (follows (flushes_one id s) (removes id flushed))
        | inr e ↦ rw (e, on_writable) (flushes_one id s)
      ]

  OkRelates-OkHolds :
      (s : Server vt) (r : Io (Server vt)) → OkRelates vt stable s r → holds s → OkHolds r
  OkRelates-OkHolds s (ok s') k v = holds_on k v
  OkRelates-OkHolds s (err e) k v = tt
  OkRelates-OkHolds s _ k v = tt

  on_event-OkHolds : (event : Event) (s : Server vt) → holds s → OkHolds (on_event vt event s)
  unfolding on_event
  on_event-OkHolds (listener answers) s v = accepts answers s v
  on_event-OkHolds (client id readable writable) s v =
      let k = on_readable-OkRelates id readable s in
      elim (Io-cases (on_readable vt id readable s)) [
        | inl (s', e) ↦
            rw (e, OkHolds, on_event)
              (holds_on (follows (rw (e, OkRelates) at k) (on_writable-relates id writable s')) v)
        | inr (inl (error, e)) ↦ rw (e, OkHolds, on_event) tt
        | inr (inr (inl e)) ↦ rw (e, OkHolds, on_event) tt
        | inr (inr (inr e)) ↦ rw (e, OkHolds, on_event) tt
      ]
  on_event-OkHolds (pty_base answers) s v =
      OkRelates-OkHolds s _ (handle_pty_output-OkRelates vt stable answers s) v

  on_events-OkHolds :
      (events : List Event) (s : Server vt) → holds s → OkHolds (on_events vt events s)
  unfolding on_events
  on_events-OkHolds [] s v = v
  on_events-OkHolds (event ∷ events) s v =
      let k = on_event-OkHolds event s v in
      elim (Io-cases (on_event vt event s)) [
        | inl (s', e) ↦
            rw (e, OkHolds, on_events) (on_events-OkHolds events s' (rw (e, OkHolds) at k))
        | inr (inl (error, e)) ↦ rw (e, OkHolds, on_events) tt
        | inr (inr (inl e)) ↦ rw (e, OkHolds, on_events) tt
        | inr (inr (inr e)) ↦ rw (e, OkHolds, on_events) tt
      ]

  abbrev EndsHold : Io (Server vt × Bool) → Type 0
  EndsHold (ok (s, ended)) = holds s
  EndsHold _ = Unit

  run-EndsHold : (rounds : List Round) (s : Server vt) → holds s → EndsHold (run vt rounds s)
  unfolding run
  run-EndsHold [] s v = v
  run-EndsHold (path_missing ∷ rounds) s v = v
  run-EndsHold (poll_failed ∷ rounds) s v = tt
  run-EndsHold (polled events status ∷ rounds) s v =
      let k = on_events-OkHolds events s v in
      elim (Io-cases (on_events vt events s)) [
        | inl (s', e) ↦
            let last = (end_of_round vt status s').0 in
            let kept = ends status s' (rw (e, OkHolds) at k) in
            elim (Bool-cases (end_of_round vt status s').1) [
              | inl ends ↦ rw (e, ends, EndsHold, run) kept
              | inr goes_on ↦ rw (e, goes_on, EndsHold, run) (run-EndsHold rounds last kept)
            ]
        | inr (inl (error, e)) ↦ rw (e, EndsHold, run) tt
        | inr (inr (inl e)) ↦ rw (e, EndsHold, run) tt
        | inr (inr (inr e)) ↦ rw (e, EndsHold, run) tt
      ]

  -- What the events leave, where they return.
  pub on_events-holds :
      (events : List Event) {s s' : Server vt} → holds s → on_events vt events s ≡ ok s' → holds s'
  on_events-holds events {s = s} v h = rw (h, OkHolds) at (on_events-OkHolds events s v)

  -- What the rounds leave, where they return.
  pub run-holds :
      (rounds : List Round) {s s' : Server vt} {ended : Bool}
      → holds s
      → run vt rounds s ≡ ok (s', ended)
      → holds s'
  run-holds rounds {s = s} v h = rw (h, EndsHold) at (run-EndsHold rounds s v)
