-- ===== src/Io.antt =====
-- Results of input and output, and what the operating system answers to a call. A file descriptor is
-- the list of the answers that it will give: the program's reads and writes take them in order.
use pterm.Common.{refl, inr, inl, ◌⊎◌, ◌≡◌, ℕ, Bytes}

-- The kinds of `io::Error` that the program tells apart.
pub data ErrorKind : Type 0 where
  write_zero other : ErrorKind

-- `panic` is an unwinding call. `waiting` is a loop that has taken all the answers and goes on.
pub data Io {ℓ} (A : Type ℓ) : Type ℓ where
  ok : A → Io A
  err : ErrorKind → Io A
  panic : Io A
  waiting : Io A

-- `EAGAIN` and `EWOULDBLOCK` are `would_block`, `EINTR` is `interrupted`.
pub data Write : Type 0 where
  wrote : ℕ → Write
  would_block : Write
  interrupted : Write
  failed : Write

pub data Read : Type 0 where
  got : Bytes → Read
  would_block : Read
  failed : Read

pub Io-cases {ℓ} :
    {A : Type ℓ} (x : Io A)
    → ((a : A) × (x ≡ ok a)) ⊎ ((e : ErrorKind) × (x ≡ err e)) ⊎ (x ≡ panic) ⊎ (x ≡ waiting)
Io-cases (ok a) = inl (a, refl)
Io-cases (err e) = inr (inl (e, refl))
Io-cases panic = inr (inr (inl refl))
Io-cases waiting = inr (inr (inr refl))
