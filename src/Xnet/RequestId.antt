-- ===== src/Xnet/RequestId.antt =====
-- NewRequestID of pkg/xnet/header.go. `draw i` stands for what the call of `rand.Intn` in round `i`
-- returns.
use krelay.Prelude.{ℕ, zero, suc, ◌+◌, ◌≡◌, refl, ap, [], ◌∷◌, Bytes, codes, length, get_or}
use krelay.Xnet.Header.{length_request_id}

abbrev pub letter_runes : Bytes
letter_runes = codes "abcdefghijklmnopqrstuvwxyzABCDEFGHIJKLMNOPQRSTUVWXYZ0123456789"

-- The rounds from `i` on.
unfoldable pub fill_id : (ℕ → ℕ) → ℕ → ℕ → Bytes
fill_id draw i zero = []
fill_id draw i (suc n) = get_or letter_runes (draw i) 0 ∷ fill_id draw (i + 1) n

unfoldable pub new_request_id : (ℕ → ℕ) → Bytes
unfolding fill_id
new_request_id draw = fill_id draw 0 length_request_id

length-fill_id : (draw : ℕ → ℕ) (i n : ℕ) → length (fill_id draw i n) ≡ n
unfolding fill_id
length-fill_id draw i zero = refl
length-fill_id draw i (suc n) = ap suc (length-fill_id draw (i + 1) n)

-- A request id fits the field of the header, whatever is drawn.
pub length-new_request_id : (draw : ℕ → ℕ) → length (new_request_id draw) ≡ 5
unfolding new_request_id
length-new_request_id draw = length-fill_id draw 0 length_request_id
