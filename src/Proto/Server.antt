-- ===== src/Proto/Server.antt =====
-- proto/src/lib.rs, `mod server`: message types, daemon to client.
use pterm.Common.{ℕ}

abbrev pub output : ℕ
output = 0x01

abbrev pub exit : ℕ
exit = 0x02

abbrev pub state_sync : ℕ
state_sync = 0x80
