-- ===== src/Commands/Wait.antt =====
-- src/main.rs, `wait_for_socket`.
use pterm.Common.{leb, if◌then◌else◌, ℕ, ◌+◌, ◌≤◌, ◌≢◌, Bool, true, false, List, [], ◌∷◌, arith}

-- What a round finds at the path: nothing, a socket, another file, or something that is gone when its
-- metadata are read.
pub data Found : Type 0 where
  missing present other vanished : Found

-- A round: what it finds, and the time at which it compares with the deadline.
pub record Poll : Type 0 where
  pub found : Found
  pub now : ℕ

-- `waiting` is a loop that has gone through its rounds and goes on.
pub data Wait : Type 0 where
  ready : Bool → Wait
  failed waiting : Wait

unfoldable pub wait_for_socket : ℕ → List Poll → Wait
wait_for_socket deadline [] = waiting
wait_for_socket deadline (poll ∷ polls) =
    let rest = wait_for_socket deadline polls in
    elim poll.found [
      | present ↦ ready true
      | vanished ↦ failed
      | missing ↦ if leb deadline poll.now then ready false else rest
      | other ↦ if leb deadline poll.now then ready false else rest
    ]

-- Each round comes at least `step` behind the one before, as `sleep` ensures.
abbrev pub Spaced : ℕ → ℕ → List Poll → Type 0
Spaced start step [] = Unit
Spaced start step (poll ∷ polls) = (start ≤ poll.now) × Spaced (poll.now + step) step polls

-- The time that so many rounds take at least.
abbrev pub span : ℕ → List Poll → ℕ
span step [] = 0
span step (poll ∷ polls) = step + span step polls

settles :
    (deadline start step : ℕ) (poll : Poll) (polls : List Poll)
    → Spaced start step (poll ∷ polls)
    → deadline ≤ start + span step polls
    → wait_for_socket deadline (poll ∷ polls) ≢ waiting
unfolding wait_for_socket
settles deadline start step poll [] (s, t) h = ground arith
settles deadline start step poll (next ∷ polls) (s, t) h =
    let later : deadline ≤ (poll.now + step) + span step polls = omega arith in
    ground (arith, settles deadline (poll.now + step) step next polls t later)

-- Where each round comes at least step behind the one before, wait_for_socket has returned as soon
-- as the rounds behind the first take the timeout at that pace.
pub wait_for_socket-returns :
    (start timeout step : ℕ) (poll : Poll) (polls : List Poll)
    → Spaced start step (poll ∷ polls)
    → timeout ≤ span step polls
    → wait_for_socket (start + timeout) (poll ∷ polls) ≢ waiting
wait_for_socket-returns start timeout step poll polls s h =
    settles (start + timeout) start step poll polls s (omega arith)
