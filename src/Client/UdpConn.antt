-- ===== src/Client/UdpConn.antt =====
-- handleUDPConn of cmd/client/udp.go: the opening of its stream, and the goroutine that writes what
-- comes on `dataCh`. The goroutine that reads is in Xnet/Udp/Loops.
pub mod Upward
pub mod Ends
use krelay.Prelude.{
  ℕ, suc, ◌≡◌, Option, none, some, Bool, true, false, List, [], ◌∷◌, ◌++◌, Bytes, if◌then◌else◌,
}
use krelay.Xio.{Writer, Written, write_full}
use krelay.Xnet.Addr.{AddrPort, protocol_udp}
use krelay.Client.ErrorStream.{Report}
use krelay.Client.Copying.{
  Copy, idle, running, ended, failed, ErrorReader, reading, reported, sending,
}
use krelay.Client.TcpConn.{Created, Outcome, open_stream}

unfoldable pub handle_udp_conn : (ℕ → ℕ) → AddrPort → Created → Outcome
unfolding open_stream
handle_udp_conn draw to c = open_stream protocol_udp draw to c

-- What the `select` of the goroutine meets: a packet with its length, or the close of `upClosed`.
pub data DataEvent : Type 0 where
  datum : Bytes → DataEvent
  up_closed : DataEvent

-- What was written to the stream, and whether the goroutine has returned.
pub record Uploaded : Type 0 where
  pub writes : List Bytes
  pub done : Bool

abbrev pub log_write : List Bytes → Uploaded → Uploaded
log_write bs u = record u { writes = bs ++ u.writes }

unfoldable pub write_data : List DataEvent → Writer → Uploaded
write_data [] w = record { writes = []; done = false }
write_data (up_closed ∷ evs) w = record { writes = []; done = true }
write_data (datum b ∷ evs) w =
    let sent = write_full w b in
    let rest = log_write sent.writes (write_data evs sent.writer) in
    if sent.error then record { writes = sent.writes; done = true } else rest

-- handleUDPConn as a step relation. Where the handler is: in front of its goroutines, in the receive
-- from `errorChan`, in the deferred send on `finish`, or behind it.
pub data Main : Type 0 where
  opening waiting finishing finished : Main

-- `writer` and `reader` are its two goroutines, `error_reader` that of createStream. `told` counts the
-- sends on `finish`, and `result` is what was received from `errorChan`.
pub record UdpHandler : Type 0 where
  pub main : Main
  pub writer : Copy
  pub reader : Copy
  pub error_reader : ErrorReader
  pub told : ℕ
  pub result : Option Report

unfoldable pub start : UdpHandler
start = record {
  main = opening;
  writer = idle;
  reader = idle;
  error_reader = reading;
  told = 0;
  result = none;
}

abbrev pub begin : UdpHandler → UdpHandler
begin h = record h { main = waiting; writer = running; reader = running }

abbrev pub after_error : Option Report → UdpHandler → UdpHandler
after_error none h = record h { error_reader = reported }
after_error (some r) h = record h { error_reader = sending r }

unfoldable pub take_report : Report → UdpHandler → UdpHandler
take_report r h = record h { main = finishing; error_reader = reported; result = some r }

unfoldable pub tell : UdpHandler → UdpHandler
tell h = record h { main = finished; told = suc h.told }

-- The reader closes `upClosed` when it ends, and the writer ends behind that, or when a write fails.
pub data Step (h : UdpHandler) : UdpHandler → Type 0 where
  refused : h.main ≡ opening → Step h (record h { main = finishing })
  opened : h.main ≡ opening → Step h (begin h)
  reader_ends : h.reader ≡ running → Step h (record h { reader = ended })
  writer_ends : h.writer ≡ running → h.reader ≡ ended → Step h (record h { writer = ended })
  write_fails : h.writer ≡ running → Step h (record h { writer = failed })
  reads_error : (r : Option Report) → h.error_reader ≡ reading → Step h (after_error r h)
  takes : {r : Report} → h.main ≡ waiting → h.error_reader ≡ sending r → Step h (take_report r h)
  takes_nothing :
      h.main ≡ waiting → h.error_reader ≡ reported → Step h (record h { main = finishing })
  tells : h.main ≡ finishing → Step h (tell h)

pub data Reach (h : UdpHandler) : UdpHandler → Type 0 where
  here : Reach h h
  next : {j k : UdpHandler} → Reach h j → Step j k → Reach h k
