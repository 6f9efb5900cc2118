-- ===== src/Xnet/Ack/RoundTrip.antt =====
-- An acknowledgement is read back, and its codes have texts of their own.
use krelay.Prelude.{ℕ, ◌≡◌, ◌≢◌, refl, [], ◌∷◌, ◌++◌, arith, Bytes, codes, ok}
use krelay.Golib.Reader.{Reader, chunk}
use krelay.Golib.Reader.Laws.{available}
use krelay.Xnet.Ack.{Acknowledgement, ack_marshal, ack_from_reader, error_text}

-- An acknowledgement that arrives, with or without bytes behind it, is read back, and the bytes
-- behind it stay in the reader.
pub ack_from_reader-ack_marshal :
    (a : Acknowledgement) (cs : Bytes) (r : Reader)
    → (r' : Reader) × (ack_from_reader (chunk (ack_marshal a ++ cs) ∷ r) ≡ (ok a, r'))
      × (available r' ≡ cs ++ available r)
unfolding ack_from_reader
ack_from_reader-ack_marshal a [] r = (r, refl, refl)
ack_from_reader-ack_marshal a (c ∷ cs) r = (chunk (c ∷ cs) ∷ r, ground arith, refl)

-- Two codes with the same text are the same, unless both are outside the range of error codes.
pub error_text-injective :
    (c d : ℕ) → error_text c ≡ error_text d → error_text c ≢ codes "Unknown code" → c ≡ d
unfolding error_text
error_text-injective c d h known = ground arith
