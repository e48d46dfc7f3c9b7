-- ===== src/Server/Clients.antt =====
-- Passes over the clients by their ids, as one pass over the list.
use pterm.Common.{
  ◌==◌, if◌then◌else◌, Bool-cases, Option-cases, ℕ, ◌≡◌, refl, sym, ap, ◌∙◌, ◌≢◌, inl, inr, Bool,
  true, false, none, List, [], ◌∷◌, arith,
}
use pterm.Server.{
  Client, Clients, get, modify, remove, is_err, flush_client, flush_client_send_buf, flush_each,
  remove_each, flush_ids,
}

-- No client has this id.
abbrev pub Fresh : ℕ → Clients → Type 0
Fresh id [] = Unit
Fresh id ((key, client) ∷ clients) = (key ≢ id) × Fresh id clients

-- The keys of a map.
abbrev pub Distinct : Clients → Type 0
Distinct [] = Unit
Distinct ((id, client) ∷ clients) = Fresh id clients × Distinct clients

abbrev pub Away : ℕ → List ℕ → Type 0
Away id [] = Unit
Away id (x ∷ xs) = (x ≢ id) × Away id xs

pub ne_of_ne : (a b : ℕ) → a ≢ b → (b == a) ≡ false
ne_of_ne a b h = ground arith

pub eq_self : (a : ℕ) → (a == a) ≡ true
eq_self a = ground arith

pub modify-modify :
    (id : ℕ) (f g : Client → Client) (cs : Clients)
    → modify id g (modify id f cs) ≡ modify id (λ c. g (f c)) cs
unfolding modify
modify-modify id f g [] = refl
modify-modify id f g ((key, c) ∷ cs) = elim (Bool-cases (key == id)) [
  | inl e ↦ rw (e, modify, e)
  | inr e ↦ rw (e, modify, e) (ap (◌∷◌ (key, c)) (modify-modify id f g cs))
]

modify-get-none :
    (id : ℕ) (f : Client → Client) (cs : Clients) → get id cs ≡ none → modify id f cs ≡ cs
unfolding modify get
modify-get-none id f [] h = refl
modify-get-none id f ((key, c) ∷ cs) h = elim (Bool-cases (key == id)) [
  | inl e ↦ cc (rw (e, get) at h)
  | inr e ↦ rw (e, modify) (ap (◌∷◌ (key, c)) (modify-get-none id f cs (rw (e, get) at h)))
]

-- A flush changes its client only, whether or not it succeeds.
pub flush_client_send_buf-modify :
    (id : ℕ) (cs : Clients)
    → (flush_client_send_buf id cs).1 ≡ modify id (λ c. (flush_client c).1) cs
unfolding flush_client_send_buf
flush_client_send_buf-modify id cs = elim (Option-cases (get id cs)) [
  | inl e ↦ rw (e, flush_client_send_buf) (sym (modify-get-none id _ cs e))
  | inr (c, e) ↦ rw (e, flush_client_send_buf)
]

pub modify-skip :
    (id key : ℕ) (f : Client → Client) (c : Client) (cs : Clients)
    → id ≢ key
    → modify id f ((key, c) ∷ cs) ≡ (key, c) ∷ modify id f cs
unfolding modify
modify-skip id key f c cs h = rw (ne_of_ne id key h)

pub modify-here :
    (id : ℕ) (f : Client → Client) (c : Client) (cs : Clients)
    → modify id f ((id, c) ∷ cs) ≡ (id, f c) ∷ cs
unfolding modify
modify-here id f c cs = rw (eq_self id)

flush_client_send_buf-skip :
    (id key : ℕ) (c : Client) (cs : Clients)
    → id ≢ key
    → flush_client_send_buf id ((key, c) ∷ cs)
      ≡ ((flush_client_send_buf id cs).0, (key, c) ∷ (flush_client_send_buf id cs).1)
unfolding flush_client_send_buf
flush_client_send_buf-skip id key c cs h = ground (arith, ne_of_ne id key h)

flush_client_send_buf-here :
    (id : ℕ) (c : Client) (cs : Clients)
    → flush_client_send_buf id ((id, c) ∷ cs) ≡ ((flush_client c).0, (id, (flush_client c).1) ∷ cs)
unfolding flush_client_send_buf
flush_client_send_buf-here id c cs = ground (arith, eq_self id)

remove-here : (id : ℕ) (c : Client) (cs : Clients) → remove id ((id, c) ∷ cs) ≡ cs
unfolding remove
remove-here id c cs = ground (arith, eq_self id)

flush_each-skip :
    (ids : List ℕ) (key : ℕ) (c : Client) (cs : Clients)
    → Away key ids
    → flush_each ids ((key, c) ∷ cs) ≡ ((flush_each ids cs).0, (key, c) ∷ (flush_each ids cs).1)
unfolding flush_each
flush_each-skip [] key c cs h = refl
flush_each-skip (id ∷ ids) key c cs (h, hs) =
    rw (flush_client_send_buf-skip id key c cs h, flush_each-skip ids key c _ hs)

remove_each-skip :
    (ids : List ℕ) (key : ℕ) (c : Client) (cs : Clients)
    → Away key ids
    → remove_each ids ((key, c) ∷ cs) ≡ (key, c) ∷ remove_each ids cs
unfolding remove_each remove
remove_each-skip [] key c cs h = refl
remove_each-skip (id ∷ ids) key c cs (h, hs) =
    rw (ne_of_ne id key h) (remove_each-skip ids key c (remove id cs) hs)

-- A pass that changes the skipped clients by `g` and the others by `h`, and then flushes the others.
module _ (skip : Client → Bool) (g h : Client → Client) where
  abbrev pub plain_ids : Clients → List ℕ
  plain_ids [] = []
  plain_ids ((id, c) ∷ cs) = if skip c then plain_ids cs else id ∷ plain_ids cs

  abbrev pub prepared : Clients → Clients
  prepared [] = []
  prepared ((id, c) ∷ cs) = (id, if skip c then g c else h c) ∷ prepared cs

  -- What is left of the clients: those that are flushed without success are dropped.
  abbrev pub delivered : Clients → Clients
  delivered [] = []
  delivered ((id, c) ∷ cs) =
      if skip c
      then (id, g c) ∷ delivered cs
      else if is_err (flush_client (h c)).0
      then delivered cs
      else (id, (flush_client (h c)).1) ∷ delivered cs

  failed : Clients → List ℕ
  failed [] = []
  failed ((id, c) ∷ cs) =
      if skip c
      then failed cs
      else if is_err (flush_client (h c)).0
      then id ∷ failed cs
      else failed cs

  flushed : Clients → Clients
  flushed [] = []
  flushed ((id, c) ∷ cs) = (id, if skip c then g c else (flush_client (h c)).1) ∷ flushed cs

  plain_ids-Away : (id : ℕ) (cs : Clients) → Fresh id cs → Away id (plain_ids cs)
  plain_ids-Away id [] f = tt
  plain_ids-Away id ((key, c) ∷ cs) (n, f) = ground (arith, plain_ids-Away id cs f)

  failed-Away : (id : ℕ) (cs : Clients) → Fresh id cs → Away id (failed cs)
  unfolding failed
  failed-Away id [] f = tt
  failed-Away id ((key, c) ∷ cs) (n, f) = ground (arith, failed-Away id cs f)

  flush_each-flushed :
      (cs : Clients)
      → Distinct cs
      → flush_each (plain_ids cs) (prepared cs) ≡ (failed cs, flushed cs)
  unfolding flush_each failed flushed
  flush_each-flushed [] d = refl
  flush_each-flushed ((id, c) ∷ cs) (f, d) = elim (Bool-cases (skip c)) [
    | inl s ↦ rw s (
        flush_each-skip (plain_ids cs) id (g c) (prepared cs) (plain_ids-Away id cs f)
        ∙ ap (λ r. (r.0, (id, g c) ∷ r.1)) (flush_each-flushed cs d))
    | inr p ↦ rw (
      p,
      flush_client_send_buf-here,
      flush_each-skip (plain_ids cs) id _ (prepared cs) (plain_ids-Away id cs f),
      flush_each-flushed cs d,
    )
  ]

  remove_each-delivered :
      (cs : Clients) → Distinct cs → remove_each (failed cs) (flushed cs) ≡ delivered cs
  unfolding remove_each failed flushed
  remove_each-delivered [] d = refl
  remove_each-delivered ((id, c) ∷ cs) (f, d) = elim (Bool-cases (skip c)) [
    | inl s ↦ rw s (
        remove_each-skip (failed cs) id (g c) (flushed cs) (failed-Away id cs f)
        ∙ ap (◌∷◌ (id, g c)) (remove_each-delivered cs d))
    | inr p ↦ rw p (elim (Bool-cases (is_err (flush_client (h c)).0)) [
      | inl e ↦ rw e (
          ap (remove_each (failed cs)) (remove-here id _ (flushed cs)) ∙ remove_each-delivered cs d)
      | inr e ↦ rw e (
          remove_each-skip (failed cs) id _ (flushed cs) (failed-Away id cs f)
          ∙ ap (◌∷◌ (id, (flush_client (h c)).1)) (remove_each-delivered cs d))
    ])
  ]

  -- The pass leaves each client as `delivered` says.
  pub flush_ids-delivered :
      (cs : Clients) → Distinct cs → flush_ids (plain_ids cs) (prepared cs) ≡ delivered cs
  unfolding flush_ids
  flush_ids-delivered cs d = rw (flush_each-flushed cs d) (remove_each-delivered cs d)
