-- ===== src/Server/Conn/Codes.antt =====
-- The codes that tell a client why its destination was not reached.
use krelay.Prelude.{◌<◌, Bool, true, false, Option, none, some, arith}
use krelay.Xnet.Ack.{ack_code_ok, ack_code_unknown_protocol}
use krelay.Server.Conn.{DialError, as_dns, as_op, code_of_dns, ack_code_from_err}

codes-bounds :
    (dns : Option (Bool × Bool)) (op : Option Bool)
    → (ack_code_ok < code_of_dns dns op) × (code_of_dns dns op < ack_code_unknown_protocol)
codes-bounds none none = (omega arith, omega arith)
codes-bounds none (some true) = (omega arith, omega arith)
codes-bounds none (some false) = (omega arith, omega arith)
codes-bounds (some (true, timeout)) op = (omega arith, omega arith)
codes-bounds (some (false, true)) op = (omega arith, omega arith)
codes-bounds (some (false, false)) none = (omega arith, omega arith)
codes-bounds (some (false, false)) (some true) = (omega arith, omega arith)
codes-bounds (some (false, false)) (some false) = (omega arith, omega arith)

-- The code of a failed dial is one of the four error codes between `AckCodeOK` and
-- `AckCodeUnknownProtocol`: no failure is told as a success, or as an unknown protocol.
pub ack_code_from_err-bounds :
    (e : DialError)
    → (ack_code_ok < ack_code_from_err e) × (ack_code_from_err e < ack_code_unknown_protocol)
unfolding ack_code_from_err
ack_code_from_err-bounds e = codes-bounds (as_dns e) (as_op e)
