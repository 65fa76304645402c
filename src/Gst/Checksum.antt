-- ===== src/Gst/Checksum.antt =====
-- The check character of a GSTIN finds every wrong character.
use retail_iq.Base.{
  ℕ, ◌+◌, ◌*◌, ◌/◌, ◌%◌, ◌<◌, ◌≡◌, refl, Bool, true, List, [], ◌∷◌, ◌++◌, map, arith, All, ap, ◌⊎◌,
  inl, inr,
}
use retail_iq.Gst.{
  upper, is_digit, is_letter, is_alnum, is_entity, is_z, pattern, matches, index, char_at, addend,
  next, total_from, checksum, front, last, is_check_of, validate_gstin,
}

-- The factors that the loop alternates between.
abbrev IsFactor : ℕ → Type 0
IsFactor f = (f ≡ 1) ⊎ (f ≡ 2)

next-IsFactor : (f : ℕ) → IsFactor f → IsFactor (next f)
next-IsFactor f (inl e) = rw e (inr refl)
next-IsFactor f (inr e) = rw e (inl refl)

index_bound : (c : ℕ) → is_alnum c ≡ true → index c < 36
unfolding index
index_bound c h = ground arith

index_injective : (c d : ℕ) → is_alnum c ≡ true → is_alnum d ≡ true → index c ≡ index d → c ≡ d
unfolding index
index_injective c d h k e = ground arith

char_at_injective : (i j : ℕ) → char_at i ≡ char_at j → i ≡ j
unfolding char_at
char_at_injective i j e = ground arith

-- A weighted digit is a digit again, and tells which digit it was.
digit_sum_bound : (i f : ℕ) → IsFactor f → i < 36 → f * i / 36 + f * i % 36 < 36
digit_sum_bound i f (inl e) h = rw e (omega arith)
digit_sum_bound i f (inr e) h = rw e (omega arith)

digit_sum_injective :
    (i j f : ℕ)
    → IsFactor f
    → i < 36
    → j < 36
    → f * i / 36 + f * i % 36 ≡ f * j / 36 + f * j % 36
    → i ≡ j
digit_sum_injective i j f (inl e) h k s = let s' = rw e at s in omega arith
digit_sum_injective i j f (inr e) h k s = let s' = rw e at s in omega arith

addend_injective :
    (f c d : ℕ)
    → IsFactor f
    → is_alnum c ≡ true
    → is_alnum d ≡ true
    → addend f c % 36 ≡ addend f d % 36
    → c ≡ d
unfolding addend
addend_injective f c d g h k e =
    let bc = digit_sum_bound (index c) f g (index_bound c h) in
    let bd = digit_sum_bound (index d) f g (index_bound d k) in
    let small : f * index c / 36 + f * index c % 36 ≡ f * index d / 36 + f * index d % 36 =
      omega arith in
    index_injective c d h k
      (digit_sum_injective (index c) (index d) f g (index_bound c h) (index_bound d k) small)

total_from-add : (f t : ℕ) (cs : List ℕ) → total_from f t cs ≡ t + total_from f 0 cs
unfolding total_from
total_from-add f t [] = omega arith
total_from-add f t (c ∷ cs) =
    let here = total_from-add (next f) (t + addend f c) cs in
    let there = total_from-add (next f) (0 + addend f c) cs in omega arith

-- The totals of two bodies that differ in one character differ as its two weights do.
one_character :
    (f t : ℕ) (xs ys : List ℕ) (c d : ℕ)
    → IsFactor f
    → is_alnum c ≡ true
    → is_alnum d ≡ true
    → total_from f t (xs ++ c ∷ ys) % 36 ≡ total_from f t (xs ++ d ∷ ys) % 36
    → c ≡ d
unfolding total_from
one_character f t [] ys c d g h k e =
    let tc = total_from-add (next f) (t + addend f c) ys in
    let td = total_from-add (next f) (t + addend f d) ys in
    let same : addend f c % 36 ≡ addend f d % 36 = omega arith in addend_injective f c d g h k same
one_character f t (x ∷ xs) ys c d g h k e =
    one_character (next f) (t + addend f x) xs ys c d (next-IsFactor f g) h k e

checksum_injective : (s t : ℕ) → checksum s ≡ checksum t → s % 36 ≡ t % 36
unfolding checksum
checksum_injective s t e = let same = char_at_injective _ _ e in omega arith

front-append : (xs ys : List ℕ) (c d : ℕ) → front (xs ++ c ∷ d ∷ ys) ≡ xs ++ c ∷ front (d ∷ ys)
unfolding front
front-append [] ys c d = refl
front-append (x ∷ []) ys c d = refl
front-append (x ∷ y ∷ xs) ys c d = ap (λ r. x ∷ r) (front-append (y ∷ xs) ys c d)

front-snoc : (xs : List ℕ) (c : ℕ) → front (xs ++ c ∷ []) ≡ xs
unfolding front
front-snoc [] c = refl
front-snoc (x ∷ []) c = refl
front-snoc (x ∷ y ∷ xs) c = ap (λ r. x ∷ r) (front-snoc (y ∷ xs) c)

last-append : (xs ys : List ℕ) (c d : ℕ) → last (xs ++ c ∷ d ∷ ys) ≡ last (d ∷ ys)
unfolding last
last-append [] ys c d = refl
last-append (x ∷ []) ys c d = refl
last-append (x ∷ y ∷ xs) ys c d = last-append (y ∷ xs) ys c d

last-snoc : (xs : List ℕ) (c : ℕ) → last (xs ++ c ∷ []) ≡ c
unfolding last
last-snoc [] c = refl
last-snoc (x ∷ []) c = refl
last-snoc (x ∷ y ∷ xs) c = last-snoc (y ∷ xs) c

-- Two strings with right check characters, alike but for one character, are alike.
check_substitution :
    (xs ys : List ℕ) (c d : ℕ)
    → is_alnum c ≡ true
    → is_alnum d ≡ true
    → is_check_of (xs ++ c ∷ ys) ≡ true
    → is_check_of (xs ++ d ∷ ys) ≡ true
    → c ≡ d
check_substitution xs [] c d h k p q =
    let p' = rw (front-snoc xs c, last-snoc xs c) at p in
    let q' = rw (front-snoc xs d, last-snoc xs d) at q in ground arith
check_substitution xs (y ∷ ys) c d h k p q =
    let p' = rw (front-append xs ys c y, last-append xs ys c y) at p in
    let q' = rw (front-append xs ys d y, last-append xs ys d y) at q in
    let same : checksum (total_from 1 0 (xs ++ c ∷ front (y ∷ ys)))
        ≡ checksum (total_from 1 0 (xs ++ d ∷ front (y ∷ ys))) =
      ground arith in
    one_character 1 0 xs (front (y ∷ ys)) c d (inl refl) h k (
      checksum_injective (total_from 1 0 (xs ++ c ∷ front (y ∷ ys)))
        (total_from 1 0 (xs ++ d ∷ front (y ∷ ys))) same)

abbrev Alnum : (ℕ → Bool) → Type 0
Alnum test = (c : ℕ) → test c ≡ true → is_alnum c ≡ true

matches-Alnum :
    (tests : List (ℕ → Bool)) (xs ys : List ℕ) (c : ℕ)
    → All Alnum tests
    → matches tests (xs ++ c ∷ ys) ≡ true
    → is_alnum c ≡ true
unfolding matches
matches-Alnum [] [] ys c h m = cc
matches-Alnum [] (x ∷ xs) ys c h m = cc
matches-Alnum (test ∷ tests) [] ys c h m = h.0 c (ground arith)
matches-Alnum (test ∷ tests) (x ∷ xs) ys c h m = matches-Alnum tests xs ys c h.1 (ground arith)

pattern-Alnum : All Alnum pattern
pattern-Alnum =
    let digit : Alnum is_digit = λ c h. ground arith in
    let letter : Alnum is_letter = λ c h. ground arith in
    let entity : Alnum is_entity = λ c h. ground arith in
    let z : Alnum is_z = λ c h. ground arith in
    (
      digit,
      (
        digit,
        (
          letter,
          (
            letter,
            (
              letter,
              (
                letter,
                (
                  letter,
                  (digit, (digit, (digit, (digit, (letter, (entity, (z, (λ c h. h, tt)))))))),
                ),
              ),
            ),
          ),
        ),
      ),
    )

map-append :
    (xs ys : List ℕ) (c : ℕ) → map upper (xs ++ c ∷ ys) ≡ map upper xs ++ upper c ∷ map upper ys
map-append [] ys c = refl
map-append (x ∷ xs) ys c = ap (λ r. upper x ∷ r) (map-append xs ys c)

-- The parts of the check that the substitution needs.
valid_parts :
    (xs ys : List ℕ) (c : ℕ)
    → validate_gstin (xs ++ c ∷ ys) ≡ true
    → (is_alnum (upper c) ≡ true) × (is_check_of (map upper xs ++ upper c ∷ map upper ys) ≡ true)
unfolding validate_gstin
valid_parts xs ys c h =
    let m : matches pattern (map upper (xs ++ c ∷ ys)) ≡ true = ground arith in
    let k : is_check_of (map upper (xs ++ c ∷ ys)) ≡ true = ground arith in
    let m' = rw (map-append xs ys c) at m in
    let k' = rw (map-append xs ys c) at k in
    (matches-Alnum pattern (map upper xs) (map upper ys) (upper c) pattern-Alnum m', k')

-- Of two accepted GSTINs that differ at one place at most, the characters there are the same but for
-- case: no accepted GSTIN becomes another accepted one by one wrong character.
pub validate_gstin_substitution :
    (xs ys : List ℕ) (c d : ℕ)
    → validate_gstin (xs ++ c ∷ ys) ≡ true
    → validate_gstin (xs ++ d ∷ ys) ≡ true
    → upper c ≡ upper d
validate_gstin_substitution xs ys c d p q =
    let (h, p') = valid_parts xs ys c p in
    let (k, q') = valid_parts xs ys d q in
    check_substitution (map upper xs) (map upper ys) (upper c) (upper d) h k p' q'
