-- ===== src/Client/Copying.antt =====
-- handleTCPConn of cmd/client/tcp.go from the creation of its stream on, as a step relation: the
-- handler, its two copying goroutines, and the goroutine of createStream that reads the error stream.
-- Of a copy only its end is modelled.
pub mod Ends
use krelay.Prelude.{ℕ, ◌≡◌, Bool, true, false, Option, none, some, ◌⊎◌}
use krelay.Client.ErrorStream.{Report}

-- Where the handler is: in front of the copies (it writes the header and reads the acknowledgement),
-- in the `select`, in the receive from `errorChan`, or behind its deferred close.
pub data Main : Type 0 where
  opening selecting receiving finished : Main

-- A copy: not started, running, ended, or failed. What the last two are depends on the copy. The copy
-- from the remote has ended when its reads from the stream have, at the end of the data or by an
-- error, and failed when a write to the client's connection did; the handler treats both alike. The
-- copy to the remote has failed when it ended by an error that is not that of a closed connection.
pub data Copy : Type 0 where
  idle running ended failed : Copy

-- The goroutine of the error stream: in the read, in the send of a report, behind the close of `errCh`.
pub data ErrorReader : Type 0 where
  reading reported : ErrorReader
  sending : Report → ErrorReader

-- `from_remote` copies to the client's connection, and `to_remote` to the stream; `stream_closed` and
-- `client_closed` tell whether this side has closed the data stream and the client's connection.
pub record Handler : Type 0 where
  pub main : Main
  pub from_remote : Copy
  pub to_remote : Copy
  pub error_reader : ErrorReader
  pub stream_closed : Bool
  pub client_closed : Bool
  pub result : Option Report

unfoldable pub start : Handler
start = record {
  main = opening;
  from_remote = idle;
  to_remote = idle;
  error_reader = reading;
  stream_closed = false;
  client_closed = false;
  result = none;
}

-- A return, with the deferred close.
abbrev pub leave : Handler → Handler
leave h = record h { main = finished; client_closed = true }

abbrev pub begin_copies : Handler → Handler
begin_copies h = record h { main = selecting; from_remote = running; to_remote = running }

-- The end of the copy to the stream, which closes the stream; a failure closes `localError` too.
abbrev pub end_to_remote : Copy → Handler → Handler
end_to_remote c h = record h { to_remote = c; stream_closed = true }

abbrev pub after_read : Option Report → Handler → Handler
after_read none h = record h { error_reader = reported }
after_read (some r) h = record h { error_reader = sending r }

-- The handler takes the report that is sent, which lets the goroutine close `errCh`.
abbrev pub take_report : Report → Handler → Handler
take_report r h = record (leave h) { error_reader = reported; result = some r }

pub data Step (h : Handler) : Handler → Type 0 where
  refused : h.main ≡ opening → Step h (leave h)
  opened : h.main ≡ opening → Step h (begin_copies h)
  remote_done : h.from_remote ≡ running → Step h (record h { from_remote = ended })
  client_fails : h.from_remote ≡ running → Step h (record h { from_remote = failed })
  local_done : h.to_remote ≡ running → Step h (end_to_remote ended h)
  local_fails : h.to_remote ≡ running → Step h (end_to_remote failed h)
  sees_remote :
      h.main ≡ selecting
      → (h.from_remote ≡ ended) ⊎ (h.from_remote ≡ failed)
      → Step h (record h { main = receiving })
  sees_local : h.main ≡ selecting → h.to_remote ≡ failed → Step h (record h { main = receiving })
  reads_error : (r : Option Report) → h.error_reader ≡ reading → Step h (after_read r h)
  takes : {r : Report} → h.main ≡ receiving → h.error_reader ≡ sending r → Step h (take_report r h)
  takes_nothing : h.main ≡ receiving → h.error_reader ≡ reported → Step h (leave h)

pub data Reach (h : Handler) : Handler → Type 0 where
  here : Reach h h
  next : {j k : Handler} → Reach h j → Step j k → Reach h k
