-- ===== src/Client/UdpForwarder/Table.antt =====
-- The table of clients, and how packets and receptions add up.
use mathlib.Core.Path.{subst}
use krelay.Prelude.{
  ℕ, ◌≡◌, refl, ap, false, List, [], ◌∷◌, ◌++◌, some, Bytes, equal, equal_iff, ◌==◌, if◌then◌else◌,
  Bool-cases, inl, inr,
}
use krelay.Client.UdpForwarder.{get_item, delete_item, set_item}

-- The packets of one client, and what is received on one channel.
abbrev pub packets_of : Bytes → List (Bytes × Bytes) → List Bytes
packets_of key [] = []
packets_of key ((k, d) ∷ ps) =
    let rest = packets_of key ps in if equal key k then d ∷ rest else rest

abbrev pub received_on : ℕ → List (ℕ × Bytes) → List Bytes
received_on ch [] = []
received_on ch ((c, d) ∷ rs) = let rest = received_on ch rs in if ch == c then d ∷ rest else rest

pub packets_of-append :
    (key : Bytes) (ps qs : List (Bytes × Bytes))
    → packets_of key (ps ++ qs) ≡ packets_of key ps ++ packets_of key qs
packets_of-append key [] qs = refl
packets_of-append key ((k, d) ∷ ps) qs = elim (Bool-cases (equal key k)) [
  | inl e ↦ rw (e, packets_of-append key ps qs) refl
  | inr e ↦ rw (e, packets_of-append key ps qs) refl
]

pub received_on-append :
    (ch : ℕ) (rs qs : List (ℕ × Bytes))
    → received_on ch (rs ++ qs) ≡ received_on ch rs ++ received_on ch qs
received_on-append ch [] qs = refl
received_on-append ch ((c, d) ∷ rs) qs = elim (Bool-cases (ch == c)) [
  | inl e ↦ rw (e, received_on-append ch rs qs) refl
  | inr e ↦ rw (e, received_on-append ch rs qs) refl
]

-- The laws of the map.
pub get_item-delete_item :
    (key k : Bytes) (items : List (Bytes × ℕ))
    → equal key k ≡ false
    → get_item key (delete_item k items) ≡ get_item key items
unfolding get_item delete_item
get_item-delete_item key k [] e = refl
get_item-delete_item key k ((k', ch) ∷ items) e = elim (Bool-cases (equal k k')) [
  | inl h ↦
      let same : k ≡ k' = (equal_iff k k').0 h in
      let other : equal key k' ≡ false = subst (λ x. equal key x ≡ false) same e in
      rw (h, other) (get_item-delete_item key k items e)
  | inr h ↦
      rw h
        (ap (λ later. if equal key k' then some ch else later) (get_item-delete_item key k items e))
]

pub get_item-set_item :
    (key k : Bytes) (ch : ℕ) (items : List (Bytes × ℕ))
    → get_item key (set_item k ch items) ≡ (if equal key k then some ch else get_item key items)
unfolding get_item set_item
get_item-set_item key k ch items = elim (Bool-cases (equal key k)) [
  | inl e ↦ rw e refl
  | inr e ↦ rw e (get_item-delete_item key k items e)
]
