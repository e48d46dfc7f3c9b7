-- ===== src/Bridge/Wake.antt =====
-- src/bridge.rs: how a change of the terminal's size reaches the daemon. The signal handler interrupts the
-- main loop between any two of its calls, and the main loop goes on when the handler has returned.
-- The poll wakes the loop while the pipe holds a byte; what else wakes it is no step of these.
use pterm.Common.{ltb, if◌then◌else◌, ℕ, ◌+◌, ◌-◌, ◌<◌, ◌≡◌, Bool, true, false}

-- Where the main loop stands: in the poll, in the reads of the pipe, before the swap of the flag, before
-- `get_winsize`, and before the RESIZE with what that gave.
pub data Loop : Type 0 where
  waiting draining drained taking : Loop
  sending : ℕ × ℕ → Loop

-- `size` is the terminal's, `signal` whether a SIGWINCH is to be delivered, `flag` SIGWINCH_RECEIVED,
-- `stored` whether the handler has set it and has not yet written, `pipe` the bytes in the pipe, and
-- `sent` the size of the last RESIZE.
pub record Wake : Type 0 where
  pub size : ℕ × ℕ
  pub signal : Bool
  pub flag : Bool
  pub stored : Bool
  pub pipe : ℕ
  pub loop : Loop
  pub sent : ℕ × ℕ

-- The terminal gets another size.
unfoldable pub resized : ℕ × ℕ → Wake → Wake
resized size w = record w { size = size; signal = true }

-- `sigwinch_handler`, its two calls. The write fails where the pipe is full.
unfoldable pub store : Wake → Wake
store w = record w { signal = false; flag = true; stored = true }

unfoldable pub write_wake : ℕ → Wake → Wake
write_wake capacity w = record w {
  stored = false;
  pipe = if ltb w.pipe capacity then w.pipe + 1 else w.pipe;
}

-- TOKEN_WAKE
unfoldable pub drain_wake : Wake → Wake
drain_wake w = record w { pipe = w.pipe - 64 }

unfoldable pub swap_flag : Wake → Wake
swap_flag w = record w { flag = false; loop = if w.flag then taking else waiting }

unfoldable pub take_size : Wake → Wake
take_size w = record w { loop = sending w.size }

unfoldable pub send_size : ℕ × ℕ → Wake → Wake
send_size size w = record w { loop = waiting; sent = size }

-- The program's steps, where `get_winsize` and the write of a RESIZE succeed.
pub data Serve (capacity : ℕ) : Wake → Wake → Type 0 where
  deliver : (w : Wake) → w.signal ≡ true → w.stored ≡ false → Serve capacity w (store w)
  write : (w : Wake) → w.stored ≡ true → Serve capacity w (write_wake capacity w)
  wakes :
      (w : Wake)
      → w.stored ≡ false
      → w.loop ≡ waiting
      → 0 < w.pipe
      → Serve capacity w (record w { loop = draining })
  drains :
      (w : Wake)
      → w.stored ≡ false
      → w.loop ≡ draining
      → 0 < w.pipe
      → Serve capacity w (drain_wake w)
  empties :
      (w : Wake)
      → w.stored ≡ false
      → w.loop ≡ draining
      → w.pipe ≡ 0
      → Serve capacity w (record w { loop = drained })
  swaps : (w : Wake) → w.stored ≡ false → w.loop ≡ drained → Serve capacity w (swap_flag w)
  takes : (w : Wake) → w.stored ≡ false → w.loop ≡ taking → Serve capacity w (take_size w)
  sends :
      (w : Wake) (size : ℕ × ℕ)
      → w.stored ≡ false
      → w.loop ≡ sending size
      → Serve capacity w (send_size size w)

-- A step of the user or of the program.
pub data Step (capacity : ℕ) : Wake → Wake → Type 0 where
  resize : (w : Wake) (size : ℕ × ℕ) → Step capacity w (resized size w)
  serves : {w v : Wake} → Serve capacity w v → Step capacity w v

pub data Reach (capacity : ℕ) (w : Wake) : Wake → Type 0 where
  here : Reach capacity w w
  next : {u v : Wake} → Reach capacity w u → Step capacity u v → Reach capacity w v

-- Where the handler stands and the first RESIZE is to be sent, of no given size. Nothing has been sent,
-- whatever `sent` is.
abbrev pub connected : ℕ × ℕ → ℕ × ℕ → Wake
connected size sent = record {
  size = size;
  signal = false;
  flag = false;
  stored = false;
  pipe = 0;
  loop = taking;
  sent = sent;
}
