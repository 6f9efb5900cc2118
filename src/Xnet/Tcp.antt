-- ===== src/Xnet/Tcp.antt =====
-- ProxyTCP and tcpBroker of pkg/xnet/tcp.go as a step relation: the two brokers, the goroutine that
-- waits for them, and the two peers.
pub mod Stream
pub mod Flow
pub mod Exit
use krelay.Prelude.{ℕ, ◌≡◌, Bool, true, false, List, [], ◌∷◌, ◌++◌, Bytes, take, if◌then◌else◌}

-- Where the broker is that copies from a connection: in a read, in front of the write of what it
-- read, behind `io.CopyBuffer`, behind `close(srcClosed)`, and behind `src.Close()`.
pub data Broker : Type 0 where
  copying stopped announced returned : Broker
  holding : Bytes → Broker

-- One connection with the broker that reads from it. Its peer has sent `inbox`, which was not read,
-- and may have ended its side. What was written to the connection is `pending` until it reaches the
-- peer. `arrived` and `written` record all that the peer sent and all that was written.
pub record End : Type 0 where
  pub is_client : Bool
  pub broker : Broker
  pub inbox : List Bytes
  pub ended : Bool
  pub read_closed : Bool
  pub closed : Bool
  pub linger_zero : Bool
  pub pending : List Bytes
  pub delivered : List Bytes
  pub arrived : List Bytes
  pub written : List Bytes

abbrev pub new_end : Bool → End
new_end is_client = record {
  is_client = is_client;
  broker = copying;
  inbox = [];
  ended = false;
  read_closed = false;
  closed = false;
  linger_zero = false;
  pending = [];
  delivered = [];
  arrived = [];
  written = [];
}

-- Where ProxyTCP is: in the `select`, in the receive from `waitFor` for one of the brokers, or at its
-- end.
pub data Main : Type 0 where
  selecting waiting_near waiting_far finished : Main

abbrev pub flip_main : Main → Main
flip_main selecting = selecting
flip_main waiting_near = waiting_far
flip_main waiting_far = waiting_near
flip_main finished = finished

-- The two connections. Steps are written for the near one as the source; `flip` exchanges the two.
pub record Proxy : Type 0 where
  pub near : End
  pub far : End
  pub main : Main

abbrev pub flip : Proxy → Proxy
flip p = record { near = p.far; far = p.near; main = flip_main p.main }

-- `downConn` is the client's.
unfoldable pub start : Proxy
start = record { near = new_end true; far = new_end false; main = selecting }

abbrev pub at_near : (End → End) → Proxy → Proxy
at_near f p = record p { near = f p.near }

abbrev pub at_far : (End → End) → Proxy → Proxy
at_far f p = record p { far = f p.far }

abbrev pub go_to : Broker → End → End
go_to b e = record e { broker = b }

-- The channel of the broker is closed.
pub data IsAnnounced : Broker → Type 0 where
  is_announced : IsAnnounced announced
  is_returned : IsAnnounced returned

-- Why a read gives no more bytes. A connection closed for reading still gives what it has received.
pub data ReadEnds (e : End) : Type 0 where
  by_peer : e.inbox ≡ [] → e.ended ≡ true → ReadEnds e
  by_close_read : e.inbox ≡ [] → e.read_closed ≡ true → ReadEnds e
  by_close : e.closed ≡ true → ReadEnds e

-- Writes to the far connection.
abbrev pub put : Bytes → End → End
put b e = record e { pending = e.pending ++ b ∷ []; written = e.written ++ b ∷ [] }

-- `src.Close()`: with a linger time of 0 what is still pending is thrown away.
unfoldable pub close_end : End → End
close_end e = record e {
  broker = returned;
  closed = true;
  pending = if e.linger_zero then [] else e.pending;
}

-- The branch of the `select` for the near broker: the far connection is closed for reading, and what
-- is pending on it is given up if it is the client that closed first.
unfoldable pub select_near : Proxy → Proxy
select_near p = record p {
  main = waiting_far;
  far = record (p.far) { read_closed = true; linger_zero = p.near.is_client };
}

-- Steps that need nothing from the peers.
pub data NearQuiet (p : Proxy) : Proxy → Type 0 where
  reads :
      {b : Bytes} {bs : List Bytes}
      → p.near.broker ≡ copying
      → p.near.closed ≡ false
      → p.near.inbox ≡ b ∷ bs
      → NearQuiet p (at_near (λ e. record e { broker = holding b; inbox = bs }) p)
  read_ends : p.near.broker ≡ copying → ReadEnds (p.near) → NearQuiet p (at_near (go_to stopped) p)
  write_fails :
      {b : Bytes}
      → p.near.broker ≡ holding b
      → p.far.closed ≡ true
      → NearQuiet p (at_near (go_to stopped) p)
  announces : p.near.broker ≡ stopped → NearQuiet p (at_near (go_to announced) p)
  closes : p.near.broker ≡ announced → NearQuiet p (at_near close_end p)
  selects : p.main ≡ selecting → IsAnnounced (p.near.broker) → NearQuiet p (select_near p)
  finishes :
      p.main ≡ waiting_far → IsAnnounced (p.far.broker) → NearQuiet p (record p { main = finished })

pub data Quiet (p : Proxy) : Proxy → Type 0 where
  near_quiet : {q : Proxy} → NearQuiet p q → Quiet p q
  far_quiet : {q : Proxy} → NearQuiet (flip p) q → Quiet p (flip q)

abbrev pub receive : Bytes → End → End
receive b e = record e { inbox = e.inbox ++ b ∷ []; arrived = e.arrived ++ b ∷ [] }

-- All steps: a peer sends, ends, or gets what is pending; a broker writes; a read or a write is
-- broken off by the peer.
pub data NearStep (p : Proxy) : Proxy → Type 0 where
  quiet : {q : Proxy} → NearQuiet p q → NearStep p q
  sends : (b : Bytes) → p.near.ended ≡ false → NearStep p (at_near (receive b) p)
  ends : NearStep p (at_near (λ e. record e { ended = true }) p)
  gets :
      {b : Bytes} {bs : List Bytes}
      → p.near.pending ≡ b ∷ bs
      → NearStep p (at_near (λ e. record e { pending = bs; delivered = e.delivered ++ b ∷ [] }) p)
  writes :
      {b : Bytes}
      → p.near.broker ≡ holding b
      → p.far.closed ≡ false
      → NearStep p (at_far (put b) (at_near (go_to copying) p))
  read_breaks : p.near.broker ≡ copying → NearStep p (at_near (go_to stopped) p)
  write_breaks :
      {b : Bytes} (n : ℕ)
      → p.near.broker ≡ holding b
      → p.far.closed ≡ false
      → NearStep p (at_far (put (take n b)) (at_near (go_to stopped) p))

pub data Step (p : Proxy) : Proxy → Type 0 where
  near_step : {q : Proxy} → NearStep p q → Step p q
  far_step : {q : Proxy} → NearStep (flip p) q → Step p (flip q)

pub data Reach (p : Proxy) : Proxy → Type 0 where
  here : Reach p p
  next : {q r : Proxy} → Reach p q → Step q r → Reach p r

pub data Settles (p : Proxy) : Proxy → Type 0 where
  still : Settles p p
  then_settles : {q r : Proxy} → Settles p q → Quiet q r → Settles p r
