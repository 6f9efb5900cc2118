-- ===== src/Golib/Text/Laws.antt =====
-- Searching and splitting a text at the first place of a character.
use krelay.Prelude.{
  ℕ, ◌≡◌, ◌≢◌, refl, false, [], ◌∷◌, ◌++◌, some, none, ◌==◌, arith, Bytes, length, Lacks,
}
use krelay.Golib.Text.{index_of, split}

not_eq : (b c : ℕ) → b ≢ c → (b == c) ≡ false
not_eq b c h = ground arith

pub index_of-append :
    (c : ℕ) (xs ys : Bytes) → Lacks c xs → index_of c (xs ++ c ∷ ys) ≡ some (length xs)
unfolding index_of
index_of-append c [] ys h = ground arith
index_of-append c (b ∷ xs) ys (h, hs) = rw (not_eq b c h, index_of-append c xs ys hs) refl

pub index_of-Lacks : (c : ℕ) (xs : Bytes) → Lacks c xs → index_of c xs ≡ none
unfolding index_of
index_of-Lacks c [] h = refl
index_of-Lacks c (b ∷ xs) (h, hs) = rw (not_eq b c h, index_of-Lacks c xs hs) refl

pub split-Lacks : (xs : Bytes) (sep : ℕ) → Lacks sep xs → split xs sep ≡ xs ∷ []
unfolding split
split-Lacks [] sep h = refl
split-Lacks (b ∷ xs) sep (h, hs) = rw (not_eq b sep h, split-Lacks xs sep hs) refl

pub split-append :
    (xs ys : Bytes) (sep : ℕ) → Lacks sep xs → split (xs ++ sep ∷ ys) sep ≡ xs ∷ split ys sep
unfolding split
split-append [] ys sep h = ground arith
split-append (b ∷ xs) ys sep (h, hs) = rw (not_eq b sep h, split-append xs ys sep hs) refl
