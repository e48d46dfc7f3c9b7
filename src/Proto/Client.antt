-- ===== src/Proto/Client.antt =====
-- proto/src/lib.rs, `mod client`: message types, client to daemon.
use pterm.Common.{ℕ}

abbrev pub input : ℕ
input = 0x01

abbrev pub resize : ℕ
resize = 0x02

abbrev pub detach : ℕ
detach = 0x03

abbrev pub redraw : ℕ
redraw = 0x04
