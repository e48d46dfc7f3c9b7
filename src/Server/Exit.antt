-- ===== src/Server/Exit.antt =====
-- src/server.rs, `run`: what the clients get when the child has exited.
use pterm.Server.Ids.{flush_pty_output-KeepsIds}
use pterm.Server.Run.{exit_clients}
use pterm.Server.Delivery.{broadcast_output-delivered, after_snapshot}
use pterm.Proto.{encode_exit, encode}
use pterm.Session.{snapshot}
use pterm.Vt.{Vt100}
use pterm.Server.Broadcast.{flush_pty_output, queue, queue_all}
use pterm.Common.{
  inr, inl, Bool-cases, if◌then◌else◌, true, sym, ◌∙◌, ℤ, Bytes, ◌≡◌, refl, ap, Bool, false, [],
  ◌∷◌,
}
use pterm.Proto.Server
use pterm.Server.{is_empty, Server, flush_ids, Vt100, flush_all_clients, Client, Clients, keys}
use pterm.Server.Clients.{flush_ids-delivered, delivered, prepared, Distinct, plain_ids}

abbrev pub no_client : Client → Bool
no_client c = false

plain_ids-keys : (cs : Clients) → plain_ids no_client (λ c. c) (λ c. c) cs ≡ keys cs
unfolding keys
plain_ids-keys [] = refl
plain_ids-keys ((id, c) ∷ cs) = ap (◌∷◌ id) (plain_ids-keys cs)

prepared-queue_all :
    (msg : Bytes) (cs : Clients) → prepared no_client (λ c. c) (queue msg) cs ≡ queue_all msg cs
unfolding queue_all
prepared-queue_all msg [] = refl
prepared-queue_all msg ((id, c) ∷ cs) = ap (◌∷◌ (id, queue msg c)) (prepared-queue_all msg cs)

keys-queue_all :
    (msg : Bytes) (cs : Clients)
    → keys (queue_all msg cs) ≡ plain_ids no_client (λ c. c) (queue msg) cs
unfolding keys queue_all
keys-queue_all msg [] = refl
keys-queue_all msg ((id, c) ∷ cs) = ap (◌∷◌ id) (keys-queue_all msg cs)

-- A message for all: each client gets it behind its queue, and is dropped if its socket fails.
pub flush_all_clients-delivered :
    (msg : Bytes) (cs : Clients)
    → Distinct cs
    → flush_all_clients (queue_all msg cs) ≡ delivered no_client (λ c. c) (queue msg) cs
unfolding flush_all_clients
flush_all_clients-delivered msg cs d =
    ap (λ ids. flush_ids ids (queue_all msg cs)) (keys-queue_all msg cs)
    ∙ ap (flush_ids (plain_ids no_client (λ c. c) (queue msg) cs)) (sym (prepared-queue_all msg cs))
    ∙ flush_ids-delivered no_client (λ c. c) (queue msg) cs d

is_empty-nil : (bytes : Bytes) → is_empty bytes ≡ true → bytes ≡ []
is_empty-nil [] h = refl
is_empty-nil (b ∷ bytes) h = cc

module _ (vt : Vt100) (s : Server vt) where
  -- Whatever was pending, nothing is after a flush.
  pub flush_pty_output-IsQuiet : (flush_pty_output vt s).pending_pty_output ≡ []
  unfolding flush_pty_output
  flush_pty_output-IsQuiet = elim (Bool-cases (is_empty s.pending_pty_output)) [
    | inl e ↦ rw e (is_empty-nil s.pending_pty_output e)
    | inr e ↦ rw e
  ]

  -- A flush where there may be nothing to send.
  flush_pty_output-delivered :
      Distinct s.clients
      → (flush_pty_output vt s).clients ≡ (
          if is_empty s.pending_pty_output
          then s.clients
          else delivered
              (λ c. c.pending_snapshot)
              (after_snapshot true (snapshot vt s.session))
              (queue (encode Server.output s.pending_pty_output))
              s.clients)
  unfolding flush_pty_output
  flush_pty_output-delivered d = elim (Bool-cases (is_empty s.pending_pty_output)) [
    | inl e ↦ rw e
    | inr e ↦
        rw e (broadcast_output-delivered (snapshot vt s.session) s.pending_pty_output s.clients d)
  ]

-- When the child has exited and ids are distinct: output that is pending goes to the clients as in
-- any flush, and where none is pending the clients are as before; then every client that is left
-- gets the EXIT behind its queue and is dropped if its socket fails; no output is pending then and
-- the EXIT is marked as sent.
pub exit_clients-delivered :
    (vt : Vt100) (code : ℤ) (s : Server vt)
    → Distinct s.clients
    → let exit = queue (encode Server.exit (encode_exit code)) in
      let outputs =
        if is_empty s.pending_pty_output
        then s.clients
        else delivered
            (λ c. c.pending_snapshot)
            (after_snapshot true (snapshot vt s.session))
            (queue (encode Server.output s.pending_pty_output))
            s.clients in
      ((exit_clients vt code s).clients ≡ delivered no_client (λ c. c) exit outputs)
      × ((exit_clients vt code s).pending_pty_output ≡ [])
      × ((exit_clients vt code s).exit_sent ≡ true)
unfolding exit_clients
exit_clients-delivered vt code s d =
    let exit = queue (encode Server.exit (encode_exit code)) in
    let left = (flush_pty_output-KeepsIds vt s).clients.distinct d in
    (
      flush_all_clients-delivered (encode Server.exit (encode_exit code)) _ left
          ∙ ap (delivered no_client (λ c. c) exit) (flush_pty_output-delivered vt s d),
      flush_pty_output-IsQuiet vt s,
      refl,
    )
