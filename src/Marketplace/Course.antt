-- ===== src/Marketplace/Course.antt =====
-- app/marketplace/logistics.py: the course of a shipment.
use retail_iq.Base.{
  ℕ, zero, suc, ◌+◌, ◌-◌, ◌*◌, ◌%◌, ◌≤◌, ◌<◌, ◌≡◌, refl, subst, true, some, List, [], ◌∷◌, ◌++◌,
  arith, ltb, if◌then◌else◌, length, length-append, Bool-cases, inl, inr,
}
use retail_iq.Base.Int.{ℤ, pos, neg, ltb_ℤ}
use retail_iq.Marketplace.Tracking.{
  Event, milestone, progress_of, passed, upcoming, events_of, get_tracking_events,
}

-- The events tell the milestones in their order, from the `n`-th on.
abbrev pub InOrder : ℕ → List Event → Type 0
InOrder n [] = Unit
InOrder n (e ∷ es) = (e.status ≡ milestone n) × InOrder (suc n) es

-- Each event is later than the one before it.
abbrev pub Later : ℤ → List Event → Type 0
Later t [] = Unit
Later t (e ∷ es) = (ltb_ℤ t e.timestamp ≡ true) × Later e.timestamp es

abbrev pub Rising : List Event → Type 0
Rising [] = Unit
Rising (e ∷ es) = Later e.timestamp es

later_neg : (a b : ℕ) → b < a → ltb_ℤ (neg (pos a)) (neg (pos b)) ≡ true
unfolding neg
later_neg a b h = ground arith

neg_later : (a b : ℕ) → 0 < b → ltb_ℤ (neg (pos a)) (pos b) ≡ true
unfolding neg
neg_later a b h = ground arith

module _ (progress late provider : ℕ) where
  passed-InOrder :
      (idx n : ℕ) (rest : List Event)
      → InOrder (n + idx) rest
      → InOrder idx (passed progress late provider idx n ++ rest)
  passed-InOrder idx zero rest h = subst (λ k. InOrder k rest) (none_left idx) h
    where
      none_left : (i : ℕ) → 0 + i ≡ i
      none_left i = omega arith
  passed-InOrder idx (suc n) rest h =
      (refl, passed-InOrder (suc idx) n rest (subst (λ k. InOrder k rest) (shift n idx) h))
    where
      shift : (n i : ℕ) → suc n + i ≡ n + suc i
      shift n i = omega arith

  passed-Later :
      (idx n a : ℕ) (rest : List Event)
      → idx + n ≤ progress
      → (progress - idx) * 6 + late < a
      → ((b : ℕ) → Later (neg (pos b)) rest)
      → Later (neg (pos a)) (passed progress late provider idx n ++ rest)
  passed-Later idx zero a rest room first end = end a
  passed-Later idx (suc n) a rest room first end = (
    later_neg a ((progress - idx) * 6 + late) first,
    passed-Later (suc idx) n ((progress - idx) * 6 + late) rest (omega (arith, room))
        (sooner progress idx n late room) end,
  )
    where
      sooner : (p i n l : ℕ) → i + suc n ≤ p → (p - suc i) * 6 + l < (p - i) * 6 + l
      sooner p i n l h = omega (arith, h)

  length-passed : (idx n : ℕ) → length (passed progress late provider idx n) ≡ n
  length-passed idx zero = refl
  length-passed idx (suc n) = rw (length-passed (suc idx) n) refl

  upcoming-InOrder : InOrder progress (upcoming progress late provider)
  upcoming-InOrder = elim (Bool-cases (ltb progress 5)) [
    | inl t ↦ rw (t, upcoming) (refl, tt)
    | inr t ↦ rw (t, upcoming) tt
  ]

  upcoming-Later : (b : ℕ) → Later (neg (pos b)) (upcoming progress late provider)
  upcoming-Later b = elim (Bool-cases (ltb progress 5)) [
    | inl t ↦ rw (t, upcoming) (neg_later b 6 (omega arith), tt)
    | inr t ↦ rw (t, upcoming) tt
  ]

weaker_Later : (t : ℤ) (es : List Event) → Later t es → Rising es
weaker_Later t [] h = tt
weaker_Later t (e ∷ es) h = h.1

length-upcoming :
    (p late provider : ℕ) → length (upcoming p late provider) ≡ (if ltb p 5 then 1 else 0)
length-upcoming p late provider = elim (Bool-cases (ltb p 5)) [
  | inl t ↦ rw (t, upcoming) refl
  | inr t ↦ rw (t, upcoming) refl
]

course_length :
    (r : ℕ)
    → (3 ≤ progress_of r + (if ltb (progress_of r) 5 then 1 else 0))
      × (progress_of r + (if ltb (progress_of r) 5 then 1 else 0) ≤ 5)
course_length r = ground arith

-- A shipment with a tracking number has three to five events, whatever its hash; they tell the
-- milestones in order from the first one on, each at a later time than the one before.
pub get_tracking_events_course :
    (seed : ℕ)
    → InOrder 0 (get_tracking_events (some seed))
      × Rising (get_tracking_events (some seed))
      × (3 ≤ length (get_tracking_events (some seed)))
      × (length (get_tracking_events (some seed)) ≤ 5)
unfolding get_tracking_events
get_tracking_events_course seed =
    let r = seed % 5 in
    let late = seed % 3 in
    let p = progress_of r in
    let last = upcoming p late r in
    let size = length-append (passed p late r 0 p) last in
    let (low, high) = course_length r in
    (
      passed-InOrder p late r 0 p last
          (subst (λ k. InOrder k last) (same p) (upcoming-InOrder p late r)),
      weaker_Later (neg (pos (p * 6 + late + 1))) (events_of r late) (
          passed-Later p late r 0 p (p * 6 + late + 1) last (whole p) (first p late)
            (upcoming-Later p late r)),
      rw (size, length-passed p late r 0 p, length-upcoming p late r) low,
      rw (size, length-passed p late r 0 p, length-upcoming p late r) high,
    )
  where
    same : (n : ℕ) → n ≡ n + 0
    same n = omega arith

    whole : (n : ℕ) → 0 + n ≤ n
    whole n = omega arith

    first : (n l : ℕ) → (n - 0) * 6 + l < n * 6 + l + 1
    first n l = omega arith
