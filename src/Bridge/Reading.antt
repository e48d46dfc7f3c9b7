-- ===== src/Bridge/Reading.antt =====
-- src/bridge.rs: what the bridge makes of the reads of one event of the socket.
use pterm.Common.{
  All, ◌≡◌, refl, ◌∙◌, ◌≢◌, true, List, [], ◌∷◌, ◌++◌, append-nil, append_assoc, Bytes,
}
use pterm.Bridge.{Bridge, read_socket, process_socket, on_socket}
use pterm.Io.{Read, got}

-- Reads of some bytes each, and the answers behind them.
abbrev pub reads : List Bytes → List Read → List Read
reads [] answers = answers
reads (chunk ∷ chunks) answers = got chunk ∷ reads chunks answers

abbrev pub concat : List Bytes → Bytes
concat [] = []
concat (chunk ∷ chunks) = chunk ++ concat chunks

read_socket-reads :
    (chunks : List Bytes) (answers : List Read) (recv_buf : Bytes)
    → All (λ chunk. chunk ≢ []) chunks
    → read_socket (reads chunks answers) recv_buf ≡ read_socket answers (recv_buf ++ concat chunks)
unfolding read_socket
read_socket-reads [] answers recv_buf h = rw append-nil
read_socket-reads ([] ∷ chunks) answers recv_buf (n, h) = absurd (n refl)
read_socket-reads ((b ∷ bs) ∷ chunks) answers recv_buf (n, h) =
    read_socket-reads chunks answers (recv_buf ++ b ∷ bs) h ∙ rw append_assoc

-- Reads of some bytes each are put together behind what was left: if the socket then has no more
-- for now, the frames among them are processed; if it is at its end, none is, so nothing is
-- printed, the exit code stays, and the bridge ends.
pub on_socket-reads :
    (chunks : List Bytes) (answers : List Read) (b : Bridge)
    → All (λ chunk. chunk ≢ []) chunks
    → (on_socket (reads chunks (Read.would_block ∷ answers)) b
        ≡ process_socket (record b { recv_buf = b.recv_buf ++ concat chunks }))
      × (on_socket (reads chunks (got [] ∷ answers)) b
          ≡ (record b { recv_buf = b.recv_buf ++ concat chunks }, true))
unfolding on_socket read_socket
on_socket-reads chunks answers b h = (
  rw (read_socket-reads chunks (Read.would_block ∷ answers) b.recv_buf h),
  rw (read_socket-reads chunks (got [] ∷ answers) b.recv_buf h),
)
