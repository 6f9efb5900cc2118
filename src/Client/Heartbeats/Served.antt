-- ===== src/Client/Heartbeats/Served.antt =====
-- The server's handler on a heartbeat.
use mathlib.Core.Path.{subst}
use krelay.Prelude.{
  ℕ, ◌≡◌, refl, ap, ◌∙◌, List, [], ◌∷◌, ◌++◌, Option, Bytes, Result, ok, err, All, All-middle,
  Bool-cases, inl, inr, arith,
}
use krelay.Golib.Reader.Laws.{available}
use krelay.Xio.{write_full}
use krelay.Xio.Delivery.{sent, write_full-sent}
use krelay.Xnet.Header.{marshal}
use krelay.Xnet.RequestId.{length-new_request_id}
use krelay.Server.Conn.{DialError, closed, Session, handle_conn}
use krelay.Server.Conn.Requests.{Opened, handle_conn_heartbeat}
use krelay.Client.Tunnel.{Stream, TunnelError, create_stream}
use krelay.Client.Heartbeats.{Tick, heartbeat, after_beat, beat_on, send_heartbeats}

abbrev IsHeartbeat : List Bytes → Type 0
IsHeartbeat writes = (draw : ℕ → ℕ) × (sent writes ≡ marshal (heartbeat draw))

after_beat-IsHeartbeat :
    (draw : ℕ → ℕ) (s : Stream) (later : List (List Bytes))
    → All IsHeartbeat later
    → All IsHeartbeat (after_beat later (write_full s.writer (marshal (heartbeat draw))))
after_beat-IsHeartbeat draw s later h =
    let b = marshal (heartbeat draw) in
    elim (Bool-cases (write_full s.writer b).error) [
      | inl e ↦ rw e tt
      | inr e ↦ rw e ((draw, write_full-sent s.writer b e), h)
    ]

beat_on-IsHeartbeat :
    (draw : ℕ → ℕ) (later : List (List Bytes)) (x : Result TunnelError Stream)
    → All IsHeartbeat later
    → All IsHeartbeat (beat_on draw later x)
beat_on-IsHeartbeat draw later (err e) h = tt
beat_on-IsHeartbeat draw later (ok s) h = after_beat-IsHeartbeat draw s later h

send_heartbeats-IsHeartbeat : (ts : List Tick) → All IsHeartbeat (send_heartbeats ts)
unfolding send_heartbeats
send_heartbeats-IsHeartbeat [] = tt
send_heartbeats-IsHeartbeat (t ∷ ts) =
    beat_on-IsHeartbeat t.draw (send_heartbeats ts)
      (create_stream t.created.error_stream t.created.data_stream) (send_heartbeats-IsHeartbeat ts)

-- Every heartbeat that the client sends, with whatever request id and in whatever pieces, makes the
-- server's handler do nothing but close the connection: no dial and no acknowledgement, which
-- nobody would read.
pub send_heartbeats-handle_conn :
    (dial : Bytes → Bytes → Option DialError) (ip_text : Bytes → Bytes) (ts : List Tick)
    (before after : List (List Bytes)) (writes : List Bytes) (s : Session) (rest : Bytes)
    → send_heartbeats ts ≡ before ++ writes ∷ after
    → s.actions ≡ []
    → available s.reader ≡ sent writes ++ rest
    → (handle_conn dial ip_text s).actions ≡ closed ∷ []
send_heartbeats-handle_conn dial ip_text ts before after writes s rest beats new arrives =
    let (draw, whole) =
      All-middle IsHeartbeat before after writes
        (subst (All IsHeartbeat) beats (send_heartbeats-IsHeartbeat ts)) in
    let opened : Opened (heartbeat draw) rest s = record {
      fits = (length-new_request_id draw, omega arith, omega arith);
      new = new;
      arrived = arrives ∙ ap (◌++ rest) whole;
    } in
    handle_conn_heartbeat dial ip_text (heartbeat draw) rest s opened refl
