-- ===== src/Golib/Endian.antt =====
-- `binary.BigEndian.PutUint16` and `Uint16` of encoding/binary.
use krelay.Prelude.{ℕ, ◌+◌, ◌*◌, ◌/◌, ◌%◌, ◌<◌, ◌≡◌, [], ◌∷◌, ◌++◌, arith, Bytes, get_or}

-- A uint16 keeps its wrap-around.
abbrev pub u16 : ℕ → ℕ
u16 n = n % 65536

-- The two bytes that `PutUint16` stores.
abbrev pub put_uint16 : ℕ → Bytes
put_uint16 v = (v / 256 % 256) ∷ (v % 256) ∷ []

-- `Uint16` reads the first two bytes.
abbrev pub uint16 : Bytes → ℕ
uint16 b = get_or b 0 0 * 256 + get_or b 1 0

pub uint16-put_uint16 : (v : ℕ) (rest : Bytes) → v < 65536 → uint16 (put_uint16 v ++ rest) ≡ v
uint16-put_uint16 v rest h = omega arith

pub put_uint16-uint16 :
    (a b : ℕ) → a < 256 → b < 256 → put_uint16 (uint16 (a ∷ b ∷ [])) ≡ a ∷ b ∷ []
put_uint16-uint16 a b ha hb = ground arith

pub uint16_lt : (a b : ℕ) → a < 256 → b < 256 → uint16 (a ∷ b ∷ []) < 65536
uint16_lt a b ha hb = omega arith
