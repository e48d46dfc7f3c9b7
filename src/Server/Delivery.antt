-- ===== src/Server/Delivery.antt =====
-- What the broadcasts deliver to each client.
use pterm.Common.{
  if◌then◌else◌, Bool-cases, ℕ, ◌≡◌, refl, sym, ap, subst, ◌∙◌, inl, inr, Bool, true, false, List,
  [], ◌∷◌, arith, Bytes,
}
use pterm.Proto.{encode}
use pterm.Proto.Server
use pterm.Server.{Client, Clients, modify, keys, flush_client}
use pterm.Server.Broadcast.{
  queue_snapshot, send_snapshot, send_snapshots, snapshot_ids, contains, queue, queue_output,
  broadcast_output,
}
use pterm.Server.Clients.{
  modify-here, Fresh, Distinct, Away, ne_of_ne, eq_self, modify-modify, modify-skip,
  flush_client_send_buf-modify, plain_ids, prepared, delivered, flush_ids-delivered,
}
use pterm.Session.{snapshot}

-- A client after its snapshot: a flush that fails leaves it connected.
abbrev pub after_snapshot : Bool → Bytes → Client → Client
after_snapshot replace_send_buf snapshot c =
    (flush_client (queue_snapshot replace_send_buf snapshot c)).1

snapshot_ids-Away : (id : ℕ) (cs : Clients) → Fresh id cs → Away id (snapshot_ids cs)
unfolding snapshot_ids
snapshot_ids-Away id [] f = tt
snapshot_ids-Away id ((key, c) ∷ cs) (n, f) = ground (arith, snapshot_ids-Away id cs f)

keys-Away : (id : ℕ) (cs : Clients) → Fresh id cs → Away id (keys cs)
unfolding keys
keys-Away id [] f = tt
keys-Away id ((key, c) ∷ cs) (n, f) = (n, keys-Away id cs f)

module _ (replace_send_buf : Bool) (snapshot : Bytes) where
  abbrev g : Client → Client
  g = after_snapshot replace_send_buf snapshot

  send_snapshot-modify :
      (id : ℕ) (cs : Clients) → send_snapshot replace_send_buf snapshot id cs ≡ modify id g cs
  unfolding send_snapshot
  send_snapshot-modify id cs =
      flush_client_send_buf-modify id _
      ∙ modify-modify id (queue_snapshot replace_send_buf snapshot) _ cs

  send_snapshots-skip :
      (ids : List ℕ) (key : ℕ) (c : Client) (cs : Clients)
      → Away key ids
      → send_snapshots replace_send_buf snapshot ids ((key, c) ∷ cs)
        ≡ (key, c) ∷ send_snapshots replace_send_buf snapshot ids cs
  unfolding send_snapshots
  send_snapshots-skip [] key c cs h = refl
  send_snapshots-skip (id ∷ ids) key c cs (h, hs) =
      rw (send_snapshot-modify, send_snapshot-modify, modify-skip id key g c cs h)
        (send_snapshots-skip ids key c (modify id g cs) hs)

  send_snapshots-here :
      (ids : List ℕ) (id : ℕ) (c : Client) (cs : Clients)
      → Away id ids
      → send_snapshots replace_send_buf snapshot (id ∷ ids) ((id, c) ∷ cs)
        ≡ (id, g c) ∷ send_snapshots replace_send_buf snapshot ids cs
  unfolding send_snapshots
  send_snapshots-here ids id c cs h =
      rw (send_snapshot-modify, modify-here id g c cs) (send_snapshots-skip ids id (g c) cs h)

  abbrev pub snapshot_all : Clients → Clients
  snapshot_all [] = []
  snapshot_all ((id, c) ∷ cs) = (id, g c) ∷ snapshot_all cs

  pub send_snapshots-keys :
      (cs : Clients)
      → Distinct cs
      → send_snapshots replace_send_buf snapshot (keys cs) cs ≡ snapshot_all cs
  unfolding keys
  send_snapshots-keys [] d = unfold send_snapshots in refl
  send_snapshots-keys ((id, c) ∷ cs) (f, d) =
      send_snapshots-here (keys cs) id c cs (keys-Away id cs f)
      ∙ ap (◌∷◌ (id, g c)) (send_snapshots-keys cs d)

  abbrev snapshotted : Clients → Clients
  snapshotted [] = []
  snapshotted ((id, c) ∷ cs) = (id, if c.pending_snapshot then g c else c) ∷ snapshotted cs

  send_snapshots-snapshotted :
      (cs : Clients)
      → Distinct cs
      → send_snapshots replace_send_buf snapshot (snapshot_ids cs) cs ≡ snapshotted cs
  unfolding snapshot_ids
  send_snapshots-snapshotted [] d = unfold send_snapshots in refl
  send_snapshots-snapshotted ((id, c) ∷ cs) (f, d) =
      let away = snapshot_ids-Away id cs f in
      elim (Bool-cases c.pending_snapshot) [
        | inl p ↦ simp p (
            send_snapshots-here (snapshot_ids cs) id c cs away
            ∙ ap (◌∷◌ (id, g c)) (send_snapshots-snapshotted cs d))
        | inr p ↦ simp p (
            send_snapshots-skip (snapshot_ids cs) id c cs away
            ∙ ap (◌∷◌ (id, c)) (send_snapshots-snapshotted cs d))
      ]

-- `ids` names just the clients that await a snapshot.
abbrev Marks : List ℕ → Clients → Type 0
Marks ids [] = Unit
Marks ids ((id, c) ∷ cs) = (contains ids id ≡ c.pending_snapshot) × Marks ids cs

Marks-cons :
    (ids : List ℕ) (key : ℕ) (cs : Clients) → Fresh key cs → Marks ids cs → Marks (key ∷ ids) cs
unfolding contains
Marks-cons ids key [] f m = tt
Marks-cons ids key ((id, c) ∷ cs) (n, f) (m, ms) =
    (rw (ne_of_ne id key n) m, Marks-cons ids key cs f ms)

contains-Away : (ids : List ℕ) (id : ℕ) → Away id ids → contains ids id ≡ false
unfolding contains
contains-Away [] id h = refl
contains-Away (x ∷ ids) id (n, h) = rw (ne_of_ne id x (λ e. n (sym e)), contains-Away ids id h)

contains-head : (id : ℕ) (ids : List ℕ) → contains (id ∷ ids) id ≡ true
unfolding contains
contains-head id ids = rw (eq_self id)

snapshot_ids-Marks : (cs : Clients) → Distinct cs → Marks (snapshot_ids cs) cs
unfolding snapshot_ids
snapshot_ids-Marks [] d = tt
snapshot_ids-Marks ((id, c) ∷ cs) (f, d) =
    let ms = snapshot_ids-Marks cs d in
    let here = contains-Away (snapshot_ids cs) id (snapshot_ids-Away id cs f) in
    elim (Bool-cases c.pending_snapshot) [
      | inl p ↦
          let e : snapshot_ids ((id, c) ∷ cs) ≡ id ∷ snapshot_ids cs = simp p in
          subst (λ ids. Marks ids ((id, c) ∷ cs)) (sym e)
            (contains-head id (snapshot_ids cs) ∙ sym p, Marks-cons (snapshot_ids cs) id cs f ms)
      | inr p ↦
          let e : snapshot_ids ((id, c) ∷ cs) ≡ snapshot_ids cs = simp p in
          subst (λ ids. Marks ids ((id, c) ∷ cs)) (sym e) (here ∙ sym p, ms)
    ]

abbrev awaits : Client → Bool
awaits c = c.pending_snapshot

module _ (snapshot output : Bytes) where
  queue_output-prepared :
      (ids : List ℕ) (cs : Clients)
      → Marks ids cs
      → queue_output ids output (snapshotted true snapshot cs) ≡ (
        plain_ids awaits (after_snapshot true snapshot) (queue output) cs,
        prepared awaits (after_snapshot true snapshot) (queue output) cs,
      )
  unfolding queue_output
  queue_output-prepared ids [] m = refl
  queue_output-prepared ids ((id, c) ∷ cs) (m, ms) = elim (Bool-cases c.pending_snapshot) [
    | inl p ↦ rw (p, m, p, queue_output-prepared ids cs ms)
    | inr p ↦ rw (p, m, p, queue_output-prepared ids cs ms)
  ]

-- Over clients with distinct ids, a flush of PTY output sends each client that awaits its snapshot
-- the snapshot alone, in place of its queue, and keeps it; every other client gets the output frame
-- behind its queue and is dropped if its socket fails.
pub broadcast_output-delivered :
    (snapshot output : Bytes) (cs : Clients)
    → Distinct cs
    → broadcast_output snapshot output cs
      ≡ delivered
          (λ c. c.pending_snapshot)
          (after_snapshot true snapshot)
          (queue (encode Server.output output))
          cs
unfolding broadcast_output
broadcast_output-delivered snapshot output cs d =
    rw
      (
        send_snapshots-snapshotted true snapshot cs d,
        queue_output-prepared snapshot (encode Server.output output) (snapshot_ids cs) cs
            (snapshot_ids-Marks cs d),
      )
      (flush_ids-delivered awaits (after_snapshot true snapshot)
        (queue (encode Server.output output)) cs d)
