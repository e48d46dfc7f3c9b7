-- ===== src/Pty/Sizing.antt =====
-- src/pty.rs, `set_winsize`, where the operating system takes the size.
use pterm.Common.{ℕ, ◌≡◌, refl, true}
use pterm.Io.{ok}
use pterm.Pty.{Pty, set_winsize}

pub set_winsize-ok :
    (cols rows : ℕ) (pty : Pty)
    → pty.resizable ≡ true
    → set_winsize cols rows pty ≡ ok (record pty { winsize = (cols, rows) })
unfolding set_winsize
set_winsize-ok cols rows pty sized = simp sized refl
