-- ===== src/Golib/Net.antt =====
-- `net.JoinHostPort`, with the port as a number that `strconv.Itoa` writes.
use krelay.Prelude.{ℕ, [], ◌∷◌, ◌++◌, Option, none, some, Bytes}
use krelay.Golib.Text.{index_of}
use krelay.Golib.Strconv.{itoa}

abbrev bracketed : Option ℕ → Bytes → Bytes
bracketed none host = host
bracketed (some i) host = b'[' ∷ (host ++ b']' ∷ [])

unfoldable pub join_host_port : Bytes → ℕ → Bytes
unfolding index_of
join_host_port host port = bracketed (index_of b':' host) host ++ b':' ∷ itoa port
