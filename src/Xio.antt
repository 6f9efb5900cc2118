-- ===== src/Xio.antt =====
-- pkg/xio/write.go. A writer is the sequence of how its `Write` calls will go.
pub mod Delivery
use krelay.Prelude.{
  ℕ, zero, ◌+◌, Bool, not, List, [], ◌∷◌, ◌==◌, if◌then◌else◌, ltb, Bytes, length, take, drop, min,
}

-- A call takes at most so many bytes of what it is given, with or without an error. A writer with
-- no event left fails at once.
pub data WriteEvent : Type 0 where
  accepts : ℕ → WriteEvent
  fails : ℕ → WriteEvent

abbrev pub Writer : Type 0
Writer = List WriteEvent

-- The loop's variable `n`, what the calls took, one item for each call, and the writer behind them.
pub record Progress : Type 0 where
  pub n : ℕ
  pub writes : List Bytes
  pub writer : Writer

abbrev log : Bytes → Progress → Progress
log b p = record p { writes = b ∷ p.writes }

-- `for n < size && err == nil`.
unfoldable pub write_loop : Bytes → ℕ → Writer → Progress
write_loop p n [] = record { n = n; writes = []; writer = [] }
write_loop p n (fails k ∷ w) =
    if ltb n (length p)
    then record { n = n + min k (length (drop n p)); writes = take k (drop n p) ∷ []; writer = w }
    else record { n = n; writes = []; writer = fails k ∷ w }
write_loop p n (accepts k ∷ w) =
    let rest = write_loop p (n + min k (length (drop n p))) w in
    if ltb n (length p)
    then log (take k (drop n p)) rest
    else record { n = n; writes = []; writer = accepts k ∷ w }

-- `error` tells whether `io.ErrShortWrite` comes back.
pub record Written : Type 0 where
  pub n : ℕ
  pub error : Bool
  pub writes : List Bytes
  pub writer : Writer

unfoldable pub write_full : Writer → Bytes → Written
unfolding write_loop
write_full w p =
    let l = write_loop p 0 w in
    record { n = l.n; error = not (l.n == length p); writes = l.writes; writer = l.writer }
