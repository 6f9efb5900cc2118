-- ===== src/Golib/Text.antt =====
-- What the program uses of strings: texts are byte sequences. Case and white space are those of
-- ASCII, which is all that port specifications, protocol names and target files hold.
pub mod Laws
use krelay.Prelude.{
  ℕ, suc, ◌+◌, Bool, true, false, not, ◌&&◌, ◌||◌, List, [], ◌∷◌, ◌++◌, Option, none, some, ◌==◌,
  if◌then◌else◌, leb, Bytes, map,
}

-- `strings.IndexRune` for an ASCII character; `none` is -1.
abbrev next_index : Option ℕ → Option ℕ
next_index none = none
next_index (some i) = some (suc i)

unfoldable pub index_of : ℕ → Bytes → Option ℕ
index_of c [] = none
index_of c (b ∷ s) = let later = next_index (index_of c s) in if b == c then some 0 else later

-- `strings.Split` by a separator of one character.
abbrev pub cons_first : ℕ → List Bytes → List Bytes
cons_first c [] = (c ∷ []) ∷ []
cons_first c (p ∷ ps) = (c ∷ p) ∷ ps

unfoldable pub split : Bytes → ℕ → List Bytes
split [] sep = [] ∷ []
split (c ∷ s) sep = let rest = split s sep in if c == sep then [] ∷ rest else cons_first c rest

-- `strings.ToLower`.
abbrev lower : ℕ → ℕ
lower c = if leb b'A' c && leb c b'Z' then c + 32 else c

unfoldable pub to_lower : Bytes → Bytes
to_lower s = map lower s

-- `strings.HasPrefix`.
unfoldable pub has_prefix : Bytes → Bytes → Bool
has_prefix s [] = true
has_prefix [] (p ∷ ps) = false
has_prefix (c ∷ s) (p ∷ ps) = c == p && has_prefix s ps

abbrev pub is_space : ℕ → Bool
is_space c = (leb 9 c && leb c 13) || c == b' '

-- `strings.TrimSpace`: the leading white space, then the trailing.
unfoldable pub trim_left : Bytes → Bytes
trim_left [] = []
trim_left (c ∷ s) = let rest = trim_left s in if is_space c then rest else c ∷ s

abbrev snoc_space : ℕ → Bytes → Bytes
snoc_space c [] = if is_space c then [] else c ∷ []
snoc_space c (d ∷ s) = c ∷ d ∷ s

unfoldable pub trim_right : Bytes → Bytes
trim_right [] = []
trim_right (c ∷ s) = snoc_space c (trim_right s)

unfoldable pub trim_space : Bytes → Bytes
unfolding trim_left trim_right
trim_space s = trim_right (trim_left s)

-- `strings.Fields`; the second argument is the field that is being read.
abbrev end_field : Bytes → List Bytes → List Bytes
end_field [] fs = fs
end_field (c ∷ f) fs = (c ∷ f) ∷ fs

unfoldable pub fields_from : Bytes → Bytes → List Bytes
fields_from [] f = end_field f []
fields_from (c ∷ s) f =
    let closed = end_field f (fields_from s []) in
    let longer = fields_from s (f ++ c ∷ []) in if is_space c then closed else longer

unfoldable pub fields : Bytes → List Bytes
unfolding fields_from
fields s = fields_from s []
