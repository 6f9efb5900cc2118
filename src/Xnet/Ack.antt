-- ===== src/Xnet/Ack.antt =====
-- pkg/xnet/ack.go: the one-byte acknowledgement.
pub mod RoundTrip
use krelay.Prelude.{
  ℕ, ◌≡◌, Bool, [], ◌∷◌, ◌==◌, if◌then◌else◌, Bytes, codes, get_or, Option, none, some, Result, ok,
  err,
}
use krelay.Golib.Reader.{ReadError, Reader, Reads, ReadResult, read}

-- AckCodeOK and the codes behind it.
abbrev pub ack_code_ok : ℕ
ack_code_ok = 1

abbrev pub ack_code_unknown_error : ℕ
ack_code_unknown_error = 2

abbrev pub ack_code_no_such_host : ℕ
ack_code_no_such_host = 3

abbrev pub ack_code_resolve_timeout : ℕ
ack_code_resolve_timeout = 4

abbrev pub ack_code_connect_timeout : ℕ
ack_code_connect_timeout = 5

abbrev pub ack_code_unknown_protocol : ℕ
ack_code_unknown_protocol = 6

-- `Error` of AckCode.
unfoldable pub error_text : ℕ → Bytes
error_text c =
    if c == ack_code_unknown_error
    then codes "Unknown error"
    else if c == ack_code_no_such_host
    then codes "No such host"
    else if c == ack_code_resolve_timeout
    then codes "Resolve timeout"
    else if c == ack_code_connect_timeout
    then codes "Connect timeout"
    else if c == ack_code_unknown_protocol
    then codes "Unknown protocol"
    else codes "Unknown code"

pub record Acknowledgement : Type 0 where
  pub code : ℕ

abbrev pub ack_marshal : Acknowledgement → Bytes
ack_marshal a = a.code ∷ []

-- The buffer starts as a zero byte, and a call that returns no byte and no error leaves it so.
abbrev ack_of : Bytes → Reader → Option ReadError → Result ReadError Acknowledgement × Reader
ack_of buf r none = (ok (record { code = get_or buf 0 0 }), r)
ack_of buf r (some e) = (err e, r)

unfoldable pub ack_from_reader : Reads ReadError Acknowledgement
unfolding read
ack_from_reader r = let got = read 1 r in ack_of got.got got.rest got.error
