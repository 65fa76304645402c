-- ===== src/Gst.antt =====
-- app/gst/utils.py: the check of a GSTIN. A string is the list of its code points, which are taken
-- to be ASCII; `re.match` with the anchored pattern is one class of characters for each position.
pub mod Checksum
use retail_iq.Base.{
  ℕ, ◌+◌, ◌-◌, ◌*◌, ◌/◌, ◌%◌, Bool, true, false, ◌&&◌, ◌||◌, List, [], ◌∷◌, ◌==◌, leb,
  if◌then◌else◌, length, map,
}

abbrev pub upper : ℕ → ℕ
upper c = if leb 97 c && leb c 122 then c - 32 else c

-- [0-9]
abbrev pub is_digit : ℕ → Bool
is_digit c = leb 48 c && leb c 57

-- [A-Z]
abbrev pub is_letter : ℕ → Bool
is_letter c = leb 65 c && leb c 90

-- [0-9A-Z]
abbrev pub is_alnum : ℕ → Bool
is_alnum c = is_digit c || is_letter c

-- [1-9A-Z]
abbrev pub is_entity : ℕ → Bool
is_entity c = leb 49 c && leb c 57 || is_letter c

-- Z
abbrev pub is_z : ℕ → Bool
is_z c = c == 90

abbrev pub pattern : List (ℕ → Bool)
pattern =
    is_digit ∷ is_digit ∷ is_letter ∷ is_letter ∷ is_letter ∷ is_letter ∷ is_letter ∷ is_digit
    ∷ is_digit ∷ is_digit ∷ is_digit ∷ is_letter ∷ is_entity ∷ is_z ∷ is_alnum ∷ []

unfoldable pub matches : List (ℕ → Bool) → List ℕ → Bool
matches [] [] = true
matches (test ∷ tests) (c ∷ cs) = test c && matches tests cs
matches _ _ = false

-- `chars.index(char)` in "0123456789ABCDEFGHIJKLMNOPQRSTUVWXYZ"
unfoldable pub index : ℕ → ℕ
index c = if is_digit c then c - 48 else c - 55

-- `chars[i]`
unfoldable pub char_at : ℕ → ℕ
char_at i = if leb i 9 then i + 48 else i + 55

unfoldable pub addend : ℕ → ℕ → ℕ
addend factor c = factor * index c / 36 + factor * index c % 36

abbrev pub next : ℕ → ℕ
next factor = if factor == 1 then 2 else 1

-- The loop over `gstin[:-1]`, from a factor and a total on.
unfoldable pub total_from : ℕ → ℕ → List ℕ → ℕ
total_from factor total [] = total
total_from factor total (c ∷ cs) = total_from (next factor) (total + addend factor c) cs

unfoldable pub checksum : ℕ → ℕ
checksum total = char_at ((36 - total % 36) % 36)

-- `gstin[:-1]`
unfoldable pub front : List ℕ → List ℕ
front [] = []
front (c ∷ []) = []
front (c ∷ d ∷ cs) = c ∷ front (d ∷ cs)

-- `gstin[-1]`, of a list that is not empty
unfoldable pub last : List ℕ → ℕ
last [] = 0
last (c ∷ []) = c
last (c ∷ d ∷ cs) = last (d ∷ cs)

abbrev pub is_check_of : List ℕ → Bool
is_check_of cs = last cs == checksum (total_from 1 0 (front cs))

unfoldable pub validate_gstin : List ℕ → Bool
validate_gstin gstin =
    (length gstin == 15) && matches pattern (map upper gstin) && is_check_of (map upper gstin)
