-- ===== src/Server/Ids.antt =====
-- src/server.rs: the ids of the clients, over every handler and over the event loop.
use pterm.Common.{
  ◌==◌, Bool-cases, ℕ, ◌<◌, ◌≡◌, refl, ◌∙◌, inl, inr, Bool, true, List, [], ◌∷◌, Bytes,
}
use pterm.Proto.{encode}
use pterm.Proto.Server
use pterm.Vt.{Vt100}
use pterm.Server.{
  Client, Clients, Server, modify, remove, keys, is_empty, flush_client, flush_client_send_buf,
  flush_each, remove_each, flush_ids, flush_all_clients,
}
use pterm.Server.Broadcast.{
  queue_snapshot, send_snapshot, send_snapshots, snapshot_ids, contains, queue, queue_output,
  queue_all, broadcast_output, send_snapshot_to_all_clients, flush_pty_output, redraw,
}
use pterm.Server.Clients.{Fresh, Distinct, flush_client_send_buf-modify}

-- Every id is below `n`.
abbrev pub Below : ℕ → Clients → Type 0
Below n [] = Unit
Below n ((id, client) ∷ clients) = (id < n) × Below n clients

-- `after` has no ids but those of `before`, and none more often.
pub record Keeps (before after : Clients) : Type 0 where
  pub fresh : (id : ℕ) → Fresh id before → Fresh id after
  pub distinct : Distinct before → Distinct after
  pub below : (n : ℕ) → Below n before → Below n after

pub Keeps-refl : {cs : Clients} → Keeps cs cs
Keeps-refl = record { fresh = λ id f. f; distinct = λ d. d; below = λ n b. b }

pub Keeps-trans : {cs cs' cs'' : Clients} → Keeps cs cs' → Keeps cs' cs'' → Keeps cs cs''
Keeps-trans k l = record {
  fresh = λ id f. l.fresh id (k.fresh id f);
  distinct = λ d. l.distinct (k.distinct d);
  below = λ n b. l.below n (k.below n b);
}

Keeps-cons :
    {cs cs' : Clients} (id : ℕ) (c c' : Client)
    → Keeps cs cs'
    → Keeps ((id, c) ∷ cs) ((id, c') ∷ cs')
Keeps-cons id c c' k = record {
  fresh = λ i f. (f.0, k.fresh i f.1);
  distinct = λ d. (k.fresh id d.0, k.distinct d.1);
  below = λ n b. (b.0, k.below n b.1);
}

Keeps-drop : {cs : Clients} (id : ℕ) (c : Client) → Keeps ((id, c) ∷ cs) cs
Keeps-drop id c = record { fresh = λ i f. f.1; distinct = λ d. d.1; below = λ n b. b.1 }

pub modify-Keeps : (id : ℕ) (f : Client → Client) (cs : Clients) → Keeps cs (modify id f cs)
unfolding modify
modify-Keeps id f [] = Keeps-refl
modify-Keeps id f ((key, c) ∷ cs) = elim (Bool-cases (key == id)) [
  | inl e ↦ rw e (Keeps-cons key c (f c) Keeps-refl)
  | inr e ↦ rw e (Keeps-cons key c c (modify-Keeps id f cs))
]

pub remove-Keeps : (id : ℕ) (cs : Clients) → Keeps cs (remove id cs)
unfolding remove
remove-Keeps id [] = Keeps-refl
remove-Keeps id ((key, c) ∷ cs) = elim (Bool-cases (key == id)) [
  | inl e ↦ rw e (Keeps-drop key c)
  | inr e ↦ rw e (Keeps-cons key c c (remove-Keeps id cs))
]

pub flush_client_send_buf-Keeps : (id : ℕ) (cs : Clients) → Keeps cs (flush_client_send_buf id cs).1
flush_client_send_buf-Keeps id cs =
    rw (flush_client_send_buf-modify id cs) (modify-Keeps id (λ c. (flush_client c).1) cs)

flush_each-Keeps : (ids : List ℕ) (cs : Clients) → Keeps cs (flush_each ids cs).1
unfolding flush_each
flush_each-Keeps [] cs = Keeps-refl
flush_each-Keeps (id ∷ ids) cs =
    Keeps-trans (flush_client_send_buf-Keeps id cs)
      (flush_each-Keeps ids (flush_client_send_buf id cs).1)

remove_each-Keeps : (ids : List ℕ) (cs : Clients) → Keeps cs (remove_each ids cs)
unfolding remove_each
remove_each-Keeps [] cs = Keeps-refl
remove_each-Keeps (id ∷ ids) cs =
    Keeps-trans (remove-Keeps id cs) (remove_each-Keeps ids (remove id cs))

flush_ids-Keeps : (ids : List ℕ) (cs : Clients) → Keeps cs (flush_ids ids cs)
unfolding flush_ids
flush_ids-Keeps ids cs =
    Keeps-trans (flush_each-Keeps ids cs)
      (remove_each-Keeps (flush_each ids cs).0 (flush_each ids cs).1)

pub flush_all_clients-Keeps : (cs : Clients) → Keeps cs (flush_all_clients cs)
unfolding flush_all_clients
flush_all_clients-Keeps cs = flush_ids-Keeps (keys cs) cs

send_snapshots-Keeps :
    (replace : Bool) (bytes : Bytes) (ids : List ℕ) (cs : Clients)
    → Keeps cs (send_snapshots replace bytes ids cs)
unfolding send_snapshots send_snapshot
send_snapshots-Keeps replace bytes [] cs = Keeps-refl
send_snapshots-Keeps replace bytes (id ∷ ids) cs =
    let queued = modify id (queue_snapshot replace bytes) cs in
    Keeps-trans
      (Keeps-trans (modify-Keeps id (queue_snapshot replace bytes) cs)
        (flush_client_send_buf-Keeps id queued))
      (send_snapshots-Keeps replace bytes ids (flush_client_send_buf id queued).1)

queue_output-Keeps :
    (ids : List ℕ) (msg : Bytes) (cs : Clients) → Keeps cs (queue_output ids msg cs).1
unfolding queue_output
queue_output-Keeps ids msg [] = Keeps-refl
queue_output-Keeps ids msg ((id, c) ∷ cs) = elim (Bool-cases (contains ids id)) [
  | inl e ↦ rw e (Keeps-cons id c c (queue_output-Keeps ids msg cs))
  | inr e ↦ rw e (Keeps-cons id c (queue msg c) (queue_output-Keeps ids msg cs))
]

pub queue_all-Keeps : (msg : Bytes) (cs : Clients) → Keeps cs (queue_all msg cs)
unfolding queue_all
queue_all-Keeps msg [] = Keeps-refl
queue_all-Keeps msg ((id, c) ∷ cs) = Keeps-cons id c (queue msg c) (queue_all-Keeps msg cs)

broadcast_output-Keeps :
    (bytes output : Bytes) (cs : Clients) → Keeps cs (broadcast_output bytes output cs)
unfolding broadcast_output
broadcast_output-Keeps bytes output cs =
    let ids = snapshot_ids cs in
    let sent = send_snapshots true bytes ids cs in
    let queued = queue_output ids (encode Server.output output) sent in
    Keeps-trans (send_snapshots-Keeps true bytes ids cs) (
      Keeps-trans (queue_output-Keeps ids (encode Server.output output) sent)
        (flush_ids-Keeps queued.0 queued.1))

-- What the client ids of a server are: distinct, and below the next one.
pub record IsValid (next_client_id : ℕ) (cs : Clients) : Type 0 where
  pub distinct : Distinct cs
  pub below : Below next_client_id cs

pub Keeps-IsValid : {n : ℕ} {cs cs' : Clients} → Keeps cs cs' → IsValid n cs → IsValid n cs'
Keeps-IsValid {n} k v = record { distinct = k.distinct v.distinct; below = k.below n v.below }

module _ (vt : Vt100) where
  -- A step of the server that adds no client and no id.
  pub record KeepsIds (s s' : Server vt) : Type 0 where
    pub clients : Keeps s.clients s'.clients
    pub next : s'.next_client_id ≡ s.next_client_id

  pub KeepsIds-refl : {s : Server vt} → KeepsIds s s
  KeepsIds-refl = record { clients = Keeps-refl; next = refl }

  pub KeepsIds-trans : {s s' s'' : Server vt} → KeepsIds s s' → KeepsIds s' s'' → KeepsIds s s''
  KeepsIds-trans k l = record { clients = Keeps-trans k.clients l.clients; next = l.next ∙ k.next }

  pub flush_pty_output-KeepsIds : (s : Server vt) → KeepsIds s (flush_pty_output vt s)
  unfolding flush_pty_output
  flush_pty_output-KeepsIds s = elim (Bool-cases (is_empty s.pending_pty_output)) [
    | inl e ↦ rw e KeepsIds-refl
    | inr e ↦ rw e (record { clients = broadcast_output-Keeps _ _ s.clients; next = refl })
  ]

  pub send_snapshot_to_all_clients-KeepsIds :
      (replace : Bool) (s : Server vt) → KeepsIds s (send_snapshot_to_all_clients vt replace s)
  unfolding send_snapshot_to_all_clients
  send_snapshot_to_all_clients-KeepsIds replace s = record {
    clients = send_snapshots-Keeps replace _ (keys s.clients) s.clients;
    next = refl;
  }

  pub redraw-KeepsIds : (s : Server vt) → KeepsIds s (redraw vt s)
  unfolding redraw
  redraw-KeepsIds s = record { clients = queue_all-Keeps _ s.clients; next = refl }
