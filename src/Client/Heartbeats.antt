-- ===== src/Client/Heartbeats.antt =====
-- sendHeartbeats of cmd/client/utils.go.
pub mod Served
use krelay.Prelude.{
  ℕ, Bool, true, false, List, [], ◌∷◌, Option, none, some, Bytes, Result, ok, err, if◌then◌else◌,
}
use krelay.Xio.{Writer, write_full, Written}
use krelay.Xnet.Addr.{addr_port_from, zero_addr, protocol_keepalive}
use krelay.Xnet.Header.{Header, marshal}
use krelay.Xnet.RequestId.{new_request_id}
use krelay.Client.Tunnel.{Stream, TunnelError, request, create_stream}
use krelay.Client.TcpConn.{Created}

-- A tick of the ticker: what is drawn for the request id, and what `CreateStream` returns.
pub record Tick : Type 0 where
  pub draw : ℕ → ℕ
  pub created : Created

-- The header of a heartbeat: the fields that are not set are zero.
abbrev pub heartbeat : (ℕ → ℕ) → Header
heartbeat draw = request (new_request_id draw) protocol_keepalive (addr_port_from zero_addr 0)

-- What is on the streams of the heartbeats, one item for each stream whose header went out whole, by
-- the ticks up to the close of the connection. The first error ends the loop.
abbrev pub after_beat : List (List Bytes) → Written → List (List Bytes)
after_beat later w = if w.error then [] else w.writes ∷ later

abbrev pub beat_on : (ℕ → ℕ) → List (List Bytes) → Result TunnelError Stream → List (List Bytes)
beat_on draw later (err e) = []
beat_on draw later (ok s) = after_beat later (write_full s.writer (marshal (heartbeat draw)))

unfoldable pub send_heartbeats : List Tick → List (List Bytes)
unfolding create_stream
send_heartbeats [] = []
send_heartbeats (t ∷ ts) =
    beat_on t.draw (send_heartbeats ts) (create_stream t.created.error_stream t.created.data_stream)
