-- ===== src/Server.antt =====
-- src/server.rs: the daemon's clients and the writes to their sockets.
--
-- `clients`, a hash map there, is a list of pairs with distinct keys. A loop over the map goes through
-- the list in order; every such loop treats the clients apart, so the order has no effect on a client.
pub mod Continuing
pub mod Order
pub mod Reaped
pub mod Held
pub mod Stable
pub mod Broadcast
pub mod Handlers
pub mod Quiet
pub mod Valid
pub mod Sound
pub mod Run
pub mod Drain
pub mod Typing
pub mod Arrivals
pub mod Ids
pub mod RunIds
pub mod Exit
pub mod Clients
pub mod Delivery
pub mod Framing
use pterm.Common.{
  ltb, leb, ◌==◌, if◌then◌else◌, ltb→lt, lt→ltb, leb→le, le→leb, lt→leb, ==_iff, Bool-cases,
  Option-cases, is_byte, is_none, length, get_or, take, drop, All, length-append, take-append-drop,
  length-take, length-drop, take-length-append, drop-length-append, take-append_le, drop-append_le,
  drop-drop, ℤ, pos, negsuc, codes, equal_iff, last, equal, starts_with, ends_with, last_part,
  pop_back-concat, to_string, pop_back, bit_and, bit_or, ℕ, zero, suc, ◌+◌, ◌-◌, ◌*◌, ◌/◌, ◌%◌, ◌^◌,
  ◌≤◌, ◌<◌, ◌≡◌, refl, sym, ap, ap₂, subst, ◌∙◌, ◌≢◌, ◌↔◌, ◌⊎◌, inl, inr, Bool, true, false, not,
  ◌&&◌, ◌||◌, Option, none, some, List, [], ◌∷◌, ◌++◌, append-nil, append_assoc, arith, Bytes,
}
use pterm.Io.{ErrorKind, write_zero, other, Io, ok, err, panic, waiting, Write, wrote, interrupted}
use pterm.Session.{Session}
use pterm.Vt.{Vt100}

-- The last four fields are the socket: the answers that it will give to writes, what it has taken,
-- whether it can be registered again with the poll, and whether it is registered for writing.
pub record Client : Type 0 where
  pub recv_buf : Bytes
  pub send_buf : Bytes
  pub large_send_buf_warned : Bool
  pub pending_snapshot : Bool
  pub writes : List Write
  pub sent : Bytes
  pub reregisters : Bool
  pub writable : Bool

abbrev pub Clients : Type 0
Clients = List (ℕ × Client)

pub record Server (vt : Vt100) : Type 0 where
  pub session : Session vt
  pub clients : Clients
  pub next_client_id : ℕ
  pub pending_pty_output : Bytes
  pub exit_sent : Bool

abbrev pub large_send_buf_warn_bytes : ℕ
large_send_buf_warn_bytes = 64 * 1024

-- `clients.get`
unfoldable pub get : ℕ → Clients → Option Client
get id [] = none
get id ((key, client) ∷ clients) = if key == id then some client else get id clients

-- A change through `clients.get_mut`; nothing where the key is missing.
unfoldable pub modify : ℕ → (Client → Client) → Clients → Clients
modify id f [] = []
modify id f ((key, client) ∷ clients) =
    if key == id then (key, f client) ∷ clients else (key, client) ∷ modify id f clients

-- `clients.remove`
unfoldable pub remove : ℕ → Clients → Clients
remove id [] = []
remove id ((key, client) ∷ clients) =
    if key == id then clients else (key, client) ∷ remove id clients

unfoldable pub keys : Clients → List ℕ
keys [] = []
keys ((key, client) ∷ clients) = key ∷ keys clients

abbrev pub is_empty {ℓ} : {A : Type ℓ} → List A → Bool
is_empty [] = true
is_empty (x ∷ xs) = false

abbrev pub is_err {ℓ} : {A : Type ℓ} → Io A → Bool
is_err (err _) = true
is_err _ = false

pub record Flushed : Type 0 where
  pub result : Io (Unit {0})
  pub writes : List Write
  pub send_buf : Bytes
  pub sent : Bytes

-- The `while` loop of `flush_client_send_buf`. A socket that has given all its answers takes no more
-- for now, as `WouldBlock` says.
unfoldable pub flush_loop : List Write → Bytes → Bytes → Flushed
flush_loop writes [] sent = record { result = ok tt; writes = writes; send_buf = []; sent = sent }
flush_loop [] (b ∷ bs) sent = record { result = ok tt; writes = []; send_buf = b ∷ bs; sent = sent }
flush_loop (wrote n ∷ writes) (b ∷ bs) sent =
    let more = flush_loop writes (drop n (b ∷ bs)) (sent ++ take n (b ∷ bs)) in
    if n == 0
    then record { result = err write_zero; writes = writes; send_buf = b ∷ bs; sent = sent }
    else more
flush_loop (Write.would_block ∷ writes) (b ∷ bs) sent = record {
  result = ok tt;
  writes = writes;
  send_buf = b ∷ bs;
  sent = sent;
}
flush_loop (_ ∷ writes) (b ∷ bs) sent = record {
  result = err other;
  writes = writes;
  send_buf = b ∷ bs;
  sent = sent;
}

-- `set_client_interest`
unfoldable pub set_interest : Bool → Client → Io (Unit {0}) × Client
set_interest writable client =
    if client.reregisters
    then (ok tt, record client { writable = writable })
    else (err other, client)

-- What follows the loop: the warning's flag, and the interest in writing.
unfoldable pub after_flush : Client → Io (Unit {0}) × Client
unfolding set_interest
after_flush client =
    let warned = leb large_send_buf_warn_bytes (length client.send_buf) in
    set_interest (not (is_empty client.send_buf)) (record client { large_send_buf_warned = warned })

unfoldable pub flush_client : Client → Io (Unit {0}) × Client
unfolding flush_loop
flush_client client =
    let f = flush_loop client.writes client.send_buf client.sent in
    let client' = record client { writes = f.writes; send_buf = f.send_buf; sent = f.sent } in
    if is_err f.result then (f.result, client') else after_flush client'

-- `flush_client_send_buf`
unfoldable pub flush_client_send_buf : ℕ → Clients → Io (Unit {0}) × Clients
unfolding get modify
flush_client_send_buf id clients = elim (get id clients) [
  | none ↦ (ok tt, clients)
  | some client ↦ ((flush_client client).0, modify id (λ c. (flush_client c).1) clients)
]

-- The loop over `ids`, with the clients whose flush failed.
unfoldable pub flush_each : List ℕ → Clients → List ℕ × Clients
flush_each [] clients = ([], clients)
flush_each (id ∷ ids) clients =
    let (result, clients') = flush_client_send_buf id clients in
    let (disconnected, clients'') = flush_each ids clients' in
    (if is_err result then id ∷ disconnected else disconnected, clients'')

unfoldable pub remove_each : List ℕ → Clients → Clients
remove_each [] clients = clients
remove_each (id ∷ ids) clients = remove_each ids (remove id clients)

-- A flush of `ids` that drops the clients whose flush failed.
unfoldable pub flush_ids : List ℕ → Clients → Clients
unfolding flush_each remove_each
flush_ids ids clients =
    let (disconnected, clients') = flush_each ids clients in remove_each disconnected clients'

unfoldable pub flush_all_clients : Clients → Clients
unfolding keys flush_ids
flush_all_clients clients = flush_ids (keys clients) clients
