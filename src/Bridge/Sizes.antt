-- ===== src/Bridge/Sizes.antt =====
-- src/bridge.rs: when no signal is under way, the daemon has been sent the terminal's size.
use pterm.Common.{
  Bool-cases, ℕ, ◌<◌, ◌≡◌, refl, sym, ap, ◌∙◌, ◌≢◌, ◌⊎◌, inl, inr, true, false, arith,
}
use pterm.Bridge.Wake.{
  Loop, waiting, draining, drained, taking, sending, Wake, Serve, deliver, write, wakes, drains,
  empties, swaps, takes, sends, Step, resize, serves, Reach, here, next, connected, resized, store,
  write_wake, drain_wake, swap_flag, take_size, send_size,
}

-- The size of the last RESIZE, the one that is being sent included.
abbrev pub latest : Loop → ℕ × ℕ → ℕ × ℕ
latest (sending size) sent = size
latest _ sent = sent

-- The last RESIZE has the terminal's size, or another one is to come; and a set flag is to be found.
pub record Inv (w : Wake) : Type 0 where
  pub due :
      (latest w.loop w.sent ≡ w.size) ⊎ (w.signal ≡ true) ⊎ (w.flag ≡ true) ⊎ (w.loop ≡ taking)
  pub found :
      w.flag ≡ true → (w.stored ≡ true) ⊎ (0 < w.pipe) ⊎ (w.loop ≡ draining) ⊎ (w.loop ≡ drained)

connected-Inv : (size sent : ℕ × ℕ) → Inv (connected size sent)
connected-Inv size sent = record { due = inr (inr (inr refl)); found = λ f. cc }

-- A loop that goes on, with no size to take or to send.
moved :
    (w : Wake) (from to : Loop)
    → Inv w
    → w.loop ≡ from
    → from ≢ taking
    → latest from w.sent ≡ latest to w.sent
    → (latest to w.sent ≡ w.size) ⊎ (w.signal ≡ true) ⊎ (w.flag ≡ true)
moved w from to i l n e = elim i.due [
  | inl d ↦ inl (sym e ∙ ap (λ loop. latest loop w.sent) (sym l) ∙ d)
  | inr (inl d) ↦ inr (inl d)
  | inr (inr (inl d)) ↦ inr (inr d)
  | inr (inr (inr d)) ↦ absurd (n (sym l ∙ d))
]

or_taking : {A B C D : Type 0} → A ⊎ B ⊎ C → A ⊎ B ⊎ C ⊎ D
or_taking (inl a) = inl a
or_taking (inr (inl b)) = inr (inl b)
or_taking (inr (inr c)) = inr (inr (inl c))

or_reading : {A B C D : Type 0} → A ⊎ B → A ⊎ B ⊎ C ⊎ D
or_reading (inl a) = inl a
or_reading (inr b) = inr (inl b)

-- Where the loop does not read the pipe, a set flag has a byte behind it or the handler at work.
announced :
    (w : Wake)
    → Inv w
    → w.loop ≢ draining
    → w.loop ≢ drained
    → w.flag ≡ true
    → (w.stored ≡ true) ⊎ (0 < w.pipe)
announced w i t s f = elim (i.found f) [
  | inl e ↦ inl e
  | inr (inl e) ↦ inr e
  | inr (inr (inl e)) ↦ absurd (t e)
  | inr (inr (inr e)) ↦ absurd (s e)
]

Serve-Inv : {capacity : ℕ} {w v : Wake} → 0 < capacity → Serve capacity w v → Inv w → Inv v
unfolding store write_wake drain_wake swap_flag take_size send_size
Serve-Inv room (deliver w s t) i = record { due = inr (inr (inl refl)); found = λ f. inl refl }
Serve-Inv room (write w t) i = record { due = i.due; found = λ f. inr (inl (ground arith)) }
Serve-Inv room (wakes w t l p) i = record {
  due = or_taking (moved w waiting draining i l (λ e. cc) refl);
  found = λ f. inr (inr (inl refl));
}
Serve-Inv room (drains w t l p) i = record { due = i.due; found = λ f. inr (inr (inl l)) }
Serve-Inv room (empties w t l p) i = record {
  due = or_taking (moved w draining drained i l (λ e. cc) refl);
  found = λ f. inr (inr (inr refl));
}
Serve-Inv room (swaps w t l) i = record {
  due = (elim (Bool-cases w.flag) [
    | inl set ↦ inr (inr (inr (rw set refl)))
    | inr clear ↦ elim (moved w drained waiting i l (λ e. cc) refl) [
      | inl e ↦ inl (rw clear e)
      | inr (inl e) ↦ inr (inl e)
      | inr (inr e) ↦ cc
    ]
  ]);
  found = λ f. cc;
}
Serve-Inv room (takes w t l) i = record {
  due = inl refl;
  found = λ f. or_reading (announced w i (λ e. cc) (λ e. cc) f);
}
Serve-Inv room (sends w size t l) i = record {
  due = or_taking (elim i.due [
    | inl d ↦ inl (ap (λ loop. latest loop w.sent) (sym l) ∙ d)
    | inr (inl d) ↦ inr (inl d)
    | inr (inr (inl d)) ↦ inr (inr d)
    | inr (inr (inr d)) ↦ cc
  ]);
  found = λ f. or_reading (announced w i (λ e. cc) (λ e. cc) f);
}

Step-Inv : {capacity : ℕ} {w v : Wake} → 0 < capacity → Step capacity w v → Inv w → Inv v
unfolding resized
Step-Inv room (resize w size) i = record { due = inr (inl refl); found = i.found }
Step-Inv room (serves s) i = Serve-Inv room s i

Reach-Inv :
    {capacity : ℕ} {size sent : ℕ × ℕ} {w : Wake}
    → 0 < capacity
    → Reach capacity (connected size sent) w
    → Inv w
Reach-Inv {size = size} {sent = sent} room here = connected-Inv size sent
Reach-Inv room (next r s) = Step-Inv room s (Reach-Inv room r)

-- Nothing of a signal is under way.
abbrev pub IsQuiet : Wake → Type 0
IsQuiet w = (w.signal ≡ false) × (w.stored ≡ false) × (w.pipe ≡ 0) × (w.loop ≡ waiting)

-- Where no signal is under way, whatever steps have led there, the last RESIZE had the size of the
-- terminal.
pub Reach-sent :
    {capacity : ℕ} {size sent : ℕ × ℕ} {w : Wake}
    → 0 < capacity
    → Reach capacity (connected size sent) w
    → IsQuiet w
    → w.sent ≡ w.size
Reach-sent {w = w} room r (s, t, p, l) =
    let i = Reach-Inv room r in
    elim (moved w waiting waiting i l (λ e. cc) refl) [
      | inl e ↦ e
      | inr (inl e) ↦ cc
      | inr (inr e) ↦ elim (announced w i (λ e. cc) (λ e. cc) e) [
        | inl f ↦ cc
        | inr f ↦ absurd (omega arith)
      ]
    ]
