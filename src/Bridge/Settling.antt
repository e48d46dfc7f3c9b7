-- ===== src/Bridge/Settling.antt =====
-- src/bridge.rs: after the last change of the terminal's size the bridge comes to rest, and the daemon
-- has that size.
use pterm.Common.{
  refl, ==_iff, inr, ◌∙◌, inl, ◌-◌, false, arith, ◌==◌, ◌≤◌, Bool-cases, suc, ◌<◌, ◌⊎◌, ◌*◌,
  if◌then◌else◌, ◌≡◌, ◌+◌, ℕ,
}
use pterm.Bridge.Sizes.{IsQuiet, Reach-sent}
use pterm.Bridge.Wake.{
  Loop, waiting, draining, drained, taking, sending, Wake, Serve, deliver, write, wakes, drains,
  empties, swaps, takes, sends, serves, Reach, next, connected, store, write_wake, drain_wake,
  swap_flag, take_size, send_size,
}

-- A bound on the steps that the program takes from here.
unfoldable pub loop_steps : Loop → ℕ → ℕ
loop_steps waiting pipe = 10 * pipe
loop_steps draining pipe = if pipe == 0 then 4 else 10 * pipe - 1
loop_steps drained pipe = 10 * pipe + 3
loop_steps taking pipe = 10 * pipe + 2
loop_steps (sending size) pipe = 10 * pipe + 1

unfoldable pub steps_left : Wake → ℕ
unfolding loop_steps
steps_left w =
    (if w.signal then 40 else 0) + (if w.stored then 20 else 0) + loop_steps w.loop w.pipe

-- A number of steps of the program.
pub data Serves (capacity : ℕ) (w : Wake) : ℕ → Wake → Type 0 where
  rests : Serves capacity w 0 w
  further :
      {n : ℕ} {u v : Wake}
      → Serves capacity w n u
      → Serve capacity u v
      → Serves capacity w (suc n) v

loop_steps-suc : (loop : Loop) (pipe : ℕ) → loop_steps loop (pipe + 1) ≤ loop_steps loop pipe + 10
unfolding loop_steps
loop_steps-suc waiting pipe = omega arith
loop_steps-suc draining pipe = ground arith
loop_steps-suc drained pipe = omega arith
loop_steps-suc taking pipe = omega arith
loop_steps-suc (sending size) pipe = omega arith

Serve-steps_left : {capacity : ℕ} {w v : Wake} → Serve capacity w v → steps_left v < steps_left w
unfolding steps_left store write_wake drain_wake swap_flag take_size send_size
Serve-steps_left (deliver w s t) = rw (s, t) (omega arith)
Serve-steps_left {capacity} (write w t) = rw t (ground (arith, loop_steps-suc w.loop w.pipe))
Serve-steps_left (wakes w t l p) = rw l (ground arith)
Serve-steps_left (drains w t l p) = rw l (ground arith)
Serve-steps_left (empties w t l p) = rw l (ground arith)
Serve-steps_left (swaps w t l) =
    rw l (elim (Bool-cases w.flag) [ inl f ↦ rw f (omega arith) | inr f ↦ rw f (omega arith) ])
Serve-steps_left (takes w t l) = rw l (omega arith)
Serve-steps_left (sends w size t l) = rw l (omega arith)

-- Only a quiet program has no step.
Loop-cases :
    (w : Wake) (capacity : ℕ) (loop : Loop)
    → w.loop ≡ loop
    → w.signal ≡ false
    → w.stored ≡ false
    → IsQuiet w ⊎ ((v : Wake) × Serve capacity w v)
Loop-cases w capacity waiting l s t = elim (Bool-cases (w.pipe == 0)) [
  | inl e ↦ inl (s, t, (==_iff w.pipe 0).0 e, l)
  | inr e ↦ inr (_, wakes w t l (ground arith))
]
Loop-cases w capacity draining l s t = elim (Bool-cases (w.pipe == 0)) [
  | inl e ↦ inr (_, empties w t l ((==_iff w.pipe 0).0 e))
  | inr e ↦ inr (_, drains w t l (ground arith))
]
Loop-cases w capacity drained l s t = inr (_, swaps w t l)
Loop-cases w capacity taking l s t = inr (_, takes w t l)
Loop-cases w capacity (sending size) l s t = inr (_, sends w size t l)

goes_on : (capacity : ℕ) (w : Wake) → IsQuiet w ⊎ ((v : Wake) × Serve capacity w v)
goes_on capacity w = elim (Bool-cases w.stored) [
  | inl t ↦ inr (_, write w t)
  | inr t ↦ elim (Bool-cases w.signal) [
    | inl s ↦ inr (_, deliver w s t)
    | inr s ↦ Loop-cases w capacity w.loop refl s t
  ]
]

Serves-steps_left :
    {capacity : ℕ} {w : Wake} {n : ℕ} {v : Wake}
    → Serves capacity w n v
    → n + steps_left v ≤ steps_left w
Serves-steps_left rests = omega arith
Serves-steps_left (further r s) = omega (arith, Serves-steps_left r, Serve-steps_left s)

Serves-Reach :
    {capacity : ℕ} {o w : Wake} {n : ℕ} {v : Wake}
    → Reach capacity o w
    → Serves capacity w n v
    → Reach capacity o v
Serves-Reach r rests = r
Serves-Reach r (further s t) = next (Serves-Reach r s) (serves t)

Serve-size : {capacity : ℕ} {w v : Wake} → Serve capacity w v → v.size ≡ w.size
unfolding store write_wake drain_wake swap_flag take_size send_size
Serve-size (deliver w s t) = refl
Serve-size (write w t) = refl
Serve-size (wakes w t l p) = refl
Serve-size (drains w t l p) = refl
Serve-size (empties w t l p) = refl
Serve-size (swaps w t l) = refl
Serve-size (takes w t l) = refl
Serve-size (sends w size t l) = refl

Serves-size : {capacity : ℕ} {w : Wake} {n : ℕ} {v : Wake} → Serves capacity w n v → v.size ≡ w.size
Serves-size rests = refl
Serves-size (further r s) = Serve-size s ∙ Serves-size r

-- From a state that changes of the size, the signal handler and the main loop have led to in any
-- order, where the pipe holds at least a byte, get_winsize and the writes of RESIZE succeed: the
-- steps that the program can take before the next change are bounded, and where it has none left,
-- no signal is under way and the last RESIZE had the size of the terminal.
pub Serves-settles :
    {capacity n : ℕ} {size sent : ℕ × ℕ} {w v : Wake}
    → 0 < capacity
    → Reach capacity (connected size sent) w
    → Serves capacity w n v
    → (n ≤ steps_left w) × ((IsQuiet v × (v.sent ≡ w.size)) ⊎ ((u : Wake) × Serve capacity v u))
Serves-settles {capacity} {v = v} room r s = (
  omega (arith, Serves-steps_left s),
  elim (goes_on capacity v) [
    | inl quiet ↦ inl (quiet, Reach-sent room (Serves-Reach r s) quiet ∙ Serves-size s)
    | inr on ↦ inr on
  ],
)
