-- ===== src/Tests/Gst.antt =====
-- A GSTIN and the same with one letter in lower case.
use retail_iq.Base.{ℕ, ◌≡◌, refl, true, false, List, [], ◌∷◌, ◌++◌}
use retail_iq.Gst.{
  upper, matches, index, char_at, addend, total_from, checksum, front, last, validate_gstin,
}
use retail_iq.Gst.Checksum.{validate_gstin_substitution}

-- 27AAPFU0939
abbrev start : List ℕ
start = 50 ∷ 55 ∷ 65 ∷ 65 ∷ 80 ∷ 70 ∷ 85 ∷ 48 ∷ 57 ∷ 51 ∷ 57 ∷ []

-- 1ZV
abbrev end : List ℕ
end = 49 ∷ 90 ∷ 86 ∷ []

accepts : validate_gstin (start ++ 70 ∷ end) ≡ true
unfolding validate_gstin matches index char_at addend total_from checksum front last
accepts = refl

accepts_lower : validate_gstin (start ++ 102 ∷ end) ≡ true
unfolding validate_gstin matches index char_at addend total_from checksum front last
accepts_lower = refl

refuses : validate_gstin (start ++ 71 ∷ end) ≡ false
unfolding validate_gstin matches index char_at addend total_from checksum front last
refuses = refl

validate_gstin_substitution_example : upper 70 ≡ upper 102
validate_gstin_substitution_example =
    validate_gstin_substitution start end 70 102 accepts accepts_lower
