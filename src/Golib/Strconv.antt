-- ===== src/Golib/Strconv.antt =====
-- `ParseUint(s, 10, 16)` and `Itoa` of strconv.
pub mod Decimal
use krelay.Prelude.{
  ℕ, zero, suc, ◌+◌, ◌-◌, ◌*◌, ◌/◌, ◌%◌, Bool, ◌||◌, [], ◌∷◌, Option, none, some, if◌then◌else◌,
  ltb, Bytes,
}

abbrev pub max_uint16 : ℕ
max_uint16 = 65535

-- The loop of `ParseUint`, which stops at the first character that is no digit and at the first
-- value that is too large; `n` stays far below the cut-off for the product.
unfoldable pub scan : Bytes → ℕ → Option ℕ
scan [] n = some n
scan (c ∷ s) n =
    let n1 = n * 10 + (c - b'0') in
    let rest = scan s n1 in
    if ltb c b'0' || ltb b'9' c then none else if ltb max_uint16 n1 then none else rest

unfoldable pub parse_uint16 : Bytes → Option ℕ
unfolding scan
parse_uint16 [] = none
parse_uint16 (c ∷ s) = scan (c ∷ s) 0

-- The digits of a number, the last one first found; five are enough for a uint16.
unfoldable pub digits : ℕ → ℕ → Bytes → Bytes
digits zero n out = out
digits (suc more) n out =
    let rest = digits more (n / 10) ((b'0' + n % 10) ∷ out) in
    if ltb n 10 then (b'0' + n) ∷ out else rest

unfoldable pub itoa : ℕ → Bytes
unfolding digits
itoa n = digits 5 n []
