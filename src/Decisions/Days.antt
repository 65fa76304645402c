-- ===== src/Decisions/Days.antt =====
-- app/decisions/helpers.py: the days of a filled history.
use retail_iq.Base.{
  ℕ, zero, suc, ◌+◌, ◌-◌, ◌<◌, ◌≡◌, ◌≢◌, ◌⊎◌, refl, sym, ap, if◌then◌else◌, All, ◌∙◌, true, false,
  Option, none, some, List, [], ◌∷◌, ◌++◌, arith, ◌==◌, length, Bool-cases, inl, inr,
}
use retail_iq.Base.Int.{ℤ, pos}
use retail_iq.Decisions.Rules.{DayValue, value_on, fill, get_zero_filled_history}

-- The last row of the day has the value.
abbrev IsLast : ℕ → List DayValue → ℤ → Type 0
IsLast day raw v =
    (before : List DayValue) × (r : DayValue) × (after : List DayValue) × (raw
      ≡ before ++ (r ∷ after))
    × (r.date ≡ day)
    × (r.value ≡ v)
    × All (λ x. x.date ≢ day) after

-- The figure of a day: its last row's, or zero without a row.
abbrev pub IsFigure : ℕ → List DayValue → ℤ → Type 0
IsFigure day raw v = (All (λ x. x.date ≢ day) raw × (v ≡ pos 0)) ⊎ IsLast day raw v

value_on-IsLast :
    (day : ℕ) (raw : List DayValue) (found : ℤ)
    → (All (λ x. x.date ≢ day) raw × (value_on day raw found ≡ found))
      ⊎ IsLast day raw (value_on day raw found)
value_on-IsLast day [] found = inl (tt, refl)
value_on-IsLast day (r ∷ rs) found =
    elim (value_on-IsLast day rs (if r.date == day then r.value else found)) [
      | inr (b, x, a, e, at_day, v, none_after) ↦
          inr (r ∷ b, x, a, ap (λ l. r ∷ l) e, at_day, v, none_after)
      | inl (none_after, e) ↦ elim (Bool-cases (r.date == day)) [
        | inl t ↦
            let e' : value_on day rs r.value ≡ r.value = rw t at e in
            inr ([], r, rs, refl, same_day r.date day t, rw t (sym e'), none_after)
        | inr t ↦
            let e' : value_on day rs found ≡ found = rw t at e in
            inl ((other_day r.date day t, none_after), rw t e')
      ]
    ]
  where
    same_day : (a b : ℕ) → (a == b) ≡ true → a ≡ b
    same_day a b t = ground arith

    other_day : (a b : ℕ) → (a == b) ≡ false → a ≢ b
    other_day a b t e = absurd (ground arith)

value_on-IsFigure : (day : ℕ) (raw : List DayValue) → IsFigure day raw (value_on day raw (pos 0))
value_on-IsFigure day raw = value_on-IsLast day raw (pos 0)

-- The entry of a day.
abbrev pub entry : ℕ → List ℤ → Option ℤ
entry i [] = none
entry zero (x ∷ xs) = some x
entry (suc i) (x ∷ xs) = entry i xs

fill_entries :
    (raw : List DayValue) (day n i : ℕ)
    → i < n
    → entry i (fill raw day n) ≡ some (value_on (day + i) raw (pos 0))
fill_entries raw day zero i h = absurd (none_below i h)
  where
    none_below : (i : ℕ) → i < 0 → ⊥
    none_below i h = omega arith
fill_entries raw day (suc n) zero h = ap (λ d. some (value_on d raw (pos 0))) (no_shift day)
  where
    no_shift : (d : ℕ) → d ≡ d + 0
    no_shift d = omega arith
fill_entries raw day (suc n) (suc i) h =
    fill_entries raw (suc day) n i (omega (arith, h))
    ∙ ap (λ d. some (value_on d raw (pos 0))) (next_day day i)
  where
    next_day : (d i : ℕ) → suc d + i ≡ d + suc i
    next_day d i = omega arith

length-fill : (raw : List DayValue) (day n : ℕ) → length (fill raw day n) ≡ n
length-fill raw day zero = refl
length-fill raw day (suc n) = ap suc (length-fill raw (suc day) n)

-- A history has exactly as many entries as its window has days, and the entry of each day is that
-- day's figure, that of the day's last row, or zero if there is none; when today is at least the
-- window, the last of its days is the day before today.
pub get_zero_filled_history_days :
    (raw : List DayValue) (today window : ℕ)
    → (length (get_zero_filled_history raw today window) ≡ window)
      × ((i : ℕ)
          → i < window
          → (v : ℤ) × (entry i (get_zero_filled_history raw today window) ≡ some v)
            × IsFigure (today - window + i) raw v)
unfolding get_zero_filled_history
get_zero_filled_history_days raw today window = (
  length-fill raw (today - window) window,
  λ i h. (
    value_on (today - window + i) raw (pos 0),
    fill_entries raw (today - window) window i h,
    value_on-IsFigure (today - window + i) raw,
  ),
)
