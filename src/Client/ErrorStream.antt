-- ===== src/Client/ErrorStream.antt =====
-- The goroutine that createStream of cmd/client/utils.go starts for the error stream. `error_text`
-- stands for the text of an error.
pub mod Pattern
use krelay.Prelude.{
  ℕ, Bool, true, false, not, ◌&&◌, ◌||◌, List, [], ◌∷◌, ◌++◌, ◌==◌, Option, none, some, Bytes,
  codes, if◌then◌else◌, ltb, length,
}
use krelay.Golib.Reader.{
  ReadError, eof, unexpected_eof, timed_out, closed, broken, Reader, chunk, fault,
}

-- `io.ReadAll`: the end of the input is no error.
abbrev pub all_error : ReadError → Option ReadError
all_error eof = none
all_error unexpected_eof = some unexpected_eof
all_error timed_out = some timed_out
all_error closed = some closed
all_error broken = some broken

abbrev pub put_first : Bytes → Bytes × Option ReadError → Bytes × Option ReadError
put_first c (m, e) = (c ++ m, e)

unfoldable pub read_all : Reader → Bytes × Option ReadError
read_all [] = ([], none)
read_all (fault e ∷ r) = ([], all_error e)
read_all (chunk c ∷ r) = put_first c (read_all r)

-- `filepath.Match`, for a pattern that has no special character but `*`, which stands for a text
-- without a slash.
abbrev pub star : (Bytes → Bool) → Bytes → Bool
star rest [] = rest []
star rest (c ∷ s) = rest (c ∷ s) || (not (c == b'/') && star rest s)

abbrev pub literal : ℕ → (Bytes → Bool) → Bytes → Bool
literal c rest [] = false
literal c rest (d ∷ s) = c == d && rest s

abbrev pub is_empty : Bytes → Bool
is_empty [] = true
is_empty (c ∷ s) = false

unfoldable pub match_path : Bytes → Bytes → Bool
match_path [] = is_empty
match_path (p ∷ ps) = let rest = match_path ps in if p == b'*' then star rest else literal p rest

-- What is sent on `errCh`.
pub data Report : Type 0 where
  read_failed : ReadError → Report
  forwarding_failed : Bytes → Report

unfoldable pub report : Bytes × Option ReadError → Option Report
report (m, some e) = some (read_failed e)
report (m, none) = if ltb 0 (length m) then some (forwarding_failed m) else none

abbrev pub err_msg : (ReadError → Bytes) → Bytes × Option ReadError → Bytes
err_msg error_text (m, some e) = error_text e
err_msg error_text (m, none) = m

abbrev pub sandbox_pattern : Bytes
sandbox_pattern = codes "*network namespace for sandbox * is closed"

-- `errCh` has no buffer: with something to send and nobody who receives, the goroutine stays in the
-- send.
abbrev pub gets_past : Bool → Option Report → Bool
gets_past received none = true
gets_past received (some r) = received

-- What the goroutine does behind the sends.
abbrev pub closes_after : (ReadError → Bytes) → Bool → Bytes × Option ReadError → Bool
closes_after error_text received m =
    gets_past received (report m) && match_path sandbox_pattern (err_msg error_text m)

-- Whether the goroutine closes the connection, by whether what it sends on `errCh` is received.
unfoldable pub closes_connection : (ReadError → Bytes) → Bool → Reader → Bool
unfolding match_path read_all report
closes_connection error_text received r = closes_after error_text received (read_all r)
