-- ===== src/Server/Order.antt =====
-- src/server.rs: the clients are a map, which has no order; in the model they are a list. What a flush of
-- output leaves depends on the order of that list in its order alone.
use pterm.Common.{
  if◌then◌else◌, ℕ, ◌≡◌, sym, ap, ap₂, subst, ◌∙◌, Bool, true, [], ◌∷◌, ◌++◌, append_assoc, arith,
  Bytes,
}
use mathlib.Core.List.{Perm, Permᴰ, perm_append_comm}
use mathlib.Core.List.Perm
use pterm.Proto.{encode}
use pterm.Proto.Server
use pterm.Server.{Client, Clients, is_err, flush_client}
use pterm.Server.Broadcast.{broadcast_output, queue}
use pterm.Server.Clients.{Fresh, Distinct, delivered}
use pterm.Server.Delivery.{broadcast_output-delivered, after_snapshot}

Fresh-Perm : (id : ℕ) {cs ds : Clients} → Permᴰ cs ds → Fresh id cs → Fresh id ds
Fresh-Perm id Permᴰ.nil f = f
Fresh-Perm id (Permᴰ.cons e p) (n, f) = (λ h. n (ap (λ r. r.0) e ∙ h), Fresh-Perm id p f)
Fresh-Perm id (Permᴰ.swap e e') (n, f) =
    (λ h. f.0 (ap (λ r. r.0) e' ∙ h), (λ h. n (ap (λ r. r.0) e ∙ h), f.1))
Fresh-Perm id (Permᴰ.trans p q) f = Fresh-Perm id q (Fresh-Perm id p f)

Distinct-Perm : {cs ds : Clients} → Permᴰ cs ds → Distinct cs → Distinct ds
Distinct-Perm Permᴰ.nil d = d
Distinct-Perm (Permᴰ.cons {b = b} {l₂ = ds} e p) (f, d) =
    (subst (λ id. Fresh id ds) (ap (λ r. r.0) e) (Fresh-Perm _ p f), Distinct-Perm p d)
Distinct-Perm (Permᴰ.swap {l = cs} e e') (f, d) = (
  (
    λ h. f.0 (ap (λ r. r.0) e' ∙ sym h ∙ sym (ap (λ r. r.0) e)),
    subst (λ id. Fresh id cs) (ap (λ r. r.0) e') d.0,
  ),
  (subst (λ id. Fresh id cs) (ap (λ r. r.0) e) f.1, d.1),
)
Distinct-Perm (Permᴰ.trans p q) d = Distinct-Perm q (Distinct-Perm p d)

module _ (skip : Client → Bool) (g h : Client → Client) where
  -- What is left of one client.
  abbrev one : ℕ × Client → Clients
  one (id, c) =
      if skip c
      then (id, g c) ∷ []
      else if is_err (flush_client (h c)).0
      then []
      else (id, (flush_client (h c)).1) ∷ []

  delivered-one :
      (p : ℕ × Client) (cs : Clients) → delivered skip g h (p ∷ cs) ≡ one p ++ delivered skip g h cs
  delivered-one (id, c) cs = ground arith

  delivered-two :
      (p q : ℕ × Client) (cs : Clients)
      → delivered skip g h (p ∷ q ∷ cs) ≡ (one p ++ one q) ++ delivered skip g h cs
  delivered-two p q cs =
      delivered-one p (q ∷ cs)
      ∙ ap (λ rest. one p ++ rest) (delivered-one q cs)
      ∙ sym (append_assoc (one p) (one q) (delivered skip g h cs))

  delivered-Perm :
      {cs ds : Clients} → Permᴰ cs ds → Perm (delivered skip g h cs) (delivered skip g h ds)
  delivered-Perm Permᴰ.nil = Perm.refl []
  delivered-Perm (Permᴰ.cons {a = a} {b = b} {l₁ = cs} {l₂ = ds} e p) =
      let same = delivered-one b ds ∙ ap (λ r. one r ++ delivered skip g h ds) (sym e) in
      subst (λ l. Perm l (delivered skip g h (b ∷ ds))) (sym (delivered-one a cs))
        (subst (Perm (one a ++ delivered skip g h cs)) (sym same)
          (Perm.append_left (one a) (delivered-Perm p)))
  delivered-Perm (Permᴰ.swap {a = a} {b = b} {a' = a'} {b' = b'} {l = cs} e e') =
      let left = delivered skip g h cs in
      let same = sym (delivered-two b a cs) ∙ ap₂ (λ x y. delivered skip g h (x ∷ y ∷ cs)) e' e in
      subst (λ l. Perm l (delivered skip g h (a' ∷ b' ∷ cs))) (sym (delivered-two a b cs))
        (subst (Perm ((one a ++ one b) ++ left)) same
          (Perm.append_right left (perm_append_comm (one a) (one b))))
  delivered-Perm (Permᴰ.trans p q) = Perm.trans (delivered-Perm p) (delivered-Perm q)

-- For clients with distinct ids, the order in which they are listed does not matter to a flush of
-- PTY output: of two orders of the same clients it leaves two orders of the same clients.
pub broadcast_output-Perm :
    (snapshot output : Bytes) (cs ds : Clients)
    → Distinct cs
    → Permᴰ cs ds
    → Perm (broadcast_output snapshot output cs) (broadcast_output snapshot output ds)
broadcast_output-Perm snapshot output cs ds d p =
    let one_by_one =
      delivered-Perm (λ c. c.pending_snapshot) (after_snapshot true snapshot)
        (queue (encode Server.output output)) p in
    subst (λ l. Perm l (broadcast_output snapshot output ds))
      (sym (broadcast_output-delivered snapshot output cs d))
      (subst (Perm _) (sym (broadcast_output-delivered snapshot output ds (Distinct-Perm p d)))
        one_by_one)
