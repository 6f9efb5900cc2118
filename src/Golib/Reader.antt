-- ===== src/Golib/Reader.antt =====
-- `io.Reader` and `io.ReadFull`: a reader is the sequence of what its `Read` calls will meet.
pub mod Laws
use krelay.Prelude.{
  ℕ, zero, suc, ◌-◌, ◌≡◌, ap, Bool, true, false, List, [], ◌∷◌, ◌++◌, Option, none, some,
  if◌then◌else◌, leb, Bytes, length, take, drop, Result, ok, err,
}
use krelay.Prelude.Stateful.{Prog}

pub data ReadError : Type 0 where
  eof unexpected_eof timed_out closed broken : ReadError

-- Bytes that arrive together, or a failed call. A reader with no event left is at its end.
pub data ReadEvent : Type 0 where
  chunk : Bytes → ReadEvent
  fault : ReadError → ReadEvent

abbrev pub Reader : Type 0
Reader = List ReadEvent

-- The bytes read, the error of the call, and the reader behind them.
pub record ReadResult : Type 0 where
  pub got : Bytes
  pub error : Option ReadError
  pub rest : Reader

abbrev prepend : Bytes → ReadResult → ReadResult
prepend c r = record r { got = c ++ r.got }

-- One `Read` into a buffer of `n` bytes, `n` positive.
unfoldable pub read : ℕ → Reader → ReadResult
read n [] = record { got = []; error = some eof; rest = [] }
read n (fault e ∷ r) = record { got = []; error = some e; rest = r }
read n (chunk c ∷ r) =
    if leb (length c) n
    then record { got = c; error = none; rest = r }
    else record { got = take n c; error = none; rest = chunk (drop n c) ∷ r }

-- The loop of `io.ReadAtLeast`: it reads until `n` more bytes are there or a call fails.
unfoldable pub fill : ℕ → Reader → ReadResult
fill zero r = record { got = []; error = none; rest = r }
fill (suc k) [] = record { got = []; error = some eof; rest = [] }
fill (suc k) (fault e ∷ r) = record { got = []; error = some e; rest = r }
fill (suc k) (chunk c ∷ r) =
    if leb (length c) (suc k)
    then prepend c (fill (suc k - length c) r)
    else record { got = take (suc k) c; error = none; rest = chunk (drop (suc k) c) ∷ r }

-- An end of the input behind the first byte is `io.ErrUnexpectedEOF`.
abbrev pub cut_error : Bytes → ReadError → ReadError
cut_error (b ∷ bs) eof = unexpected_eof
cut_error got e = e

abbrev full_error : Bytes → Option ReadError → Option ReadError
full_error got none = none
full_error got (some e) = some (cut_error got e)

unfoldable pub read_full : ℕ → Reader → ReadResult
unfolding fill
read_full n r = let f = fill n r in record f { error = full_error f.got f.error }

-- A computation that reads: it yields a value or an error, and the reader behind what it read.
abbrev pub Reads : Type 0 → Type 0 → Type 0
Reads E A = Prog Reader E A

abbrev outcome :
    {E : Type 0} → (ReadError → E) → Bytes → Reader → Option ReadError → Result E Bytes × Reader
outcome wrap got r none = (ok got, r)
outcome wrap got r (some e) = (err (wrap e), r)

-- `ReadFull`, whose error the caller wraps.
unfoldable pub read_exactly : {E : Type 0} → (ReadError → E) → ℕ → Reads E Bytes
unfolding read_full
read_exactly wrap n r = let f = read_full n r in outcome wrap f.got f.rest f.error
