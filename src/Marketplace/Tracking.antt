-- ===== src/Marketplace/Tracking.antt =====
-- app/marketplace/logistics.py: the milestones of a shipment. An event that lacks the key `delivered`
-- has it false here. The seed comes from a hash of the
-- tracking number; a time is a number of hours from now.
use retail_iq.Base.{
  ℕ, zero, suc, ◌+◌, ◌-◌, ◌*◌, ◌%◌, Option, none, some, List, [], ◌∷◌, ◌++◌, leb, ltb,
  if◌then◌else◌, Bool, true, false, ◌==◌, ◌&&◌,
}
use retail_iq.Base.Int.{ℤ, pos, neg}

pub data Milestone : Type 0 where
  created picked_up in_transit out_for_delivery delivered : Milestone

pub record Event : Type 0 where
  pub status : Milestone
  pub hub : ℕ
  pub timestamp : ℤ
  pub provider : ℕ
  pub eta_days : Option ℕ
  pub is_delivered : Bool

abbrev pub milestone : ℕ → Milestone
milestone zero = Milestone.created
milestone (suc zero) = Milestone.picked_up
milestone (suc (suc zero)) = Milestone.in_transit
milestone (suc (suc (suc zero))) = Milestone.out_for_delivery
milestone (suc (suc (suc (suc n)))) = Milestone.delivered

abbrev pub is_last : Milestone → Bool
is_last Milestone.delivered = true
is_last Milestone.created = false
is_last Milestone.picked_up = false
is_last Milestone.in_transit = false
is_last Milestone.out_for_delivery = false

-- min(5, 2 + seed % 5)
abbrev pub progress_of : ℕ → ℕ
progress_of r = if leb (2 + r) 5 then 2 + r else 5

-- The events `idx`, `idx` + 1, …, so many, of a shipment with so much progress.
abbrev pub passed : ℕ → ℕ → ℕ → ℕ → ℕ → List Event
passed progress late provider idx zero = []
passed progress late provider idx (suc n) =
    record {
      status = milestone idx;
      hub = idx;
      timestamp = neg (pos ((progress - idx) * 6 + late));
      provider = provider;
      eta_days = none;
      is_delivered = (suc idx == progress) && is_last (milestone idx);
    }
    ∷ passed progress late provider (suc idx) n

abbrev pub upcoming : ℕ → ℕ → ℕ → List Event
upcoming progress late provider =
    if ltb progress 5
    then record {
      status = milestone progress;
      hub = progress;
      timestamp = pos 6;
      provider = provider;
      eta_days = some (1 + late);
      is_delivered = false;
    }
      ∷ []
    else []

abbrev pub events_of : ℕ → ℕ → List Event
events_of r late =
    passed (progress_of r) late r 0 (progress_of r) ++ upcoming (progress_of r) late r

-- `none` is an empty tracking number.
unfoldable pub get_tracking_events : Option ℕ → List Event
get_tracking_events none = []
get_tracking_events (some seed) = events_of (seed % 5) (seed % 3)
