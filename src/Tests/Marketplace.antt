-- ===== src/Tests/Marketplace.antt =====
-- One item in the catalogue and one loan product.
use retail_iq.Base.{◌≤◌, true, some, [], ◌∷◌, length}
use retail_iq.Base.Int.{ℤ, pos}
use retail_iq.Marketplace.Models.{Db, Line}
use retail_iq.Marketplace.Orders.{Placement}
use retail_iq.Marketplace.Tracking.{get_tracking_events}
use retail_iq.Marketplace.Places.{Places}
use retail_iq.Marketplace.Course.{InOrder, Rising, get_tracking_events_course}

abbrev market : Db
market = record {
  catalog =
      record {
        id = 7;
        supplier_profile_id = 2;
        unit_price = pos 1250;
        moq = 1;
        available_quantity = 90;
      }
      ∷ [];
  orders = [];
  items = [];
  rfqs = [];
  loan_products =
      record {
        id = 3;
        min_amount = pos 1;
        max_amount = pos 100000;
        max_tenure_days = 90;
        base_interest_rate = pos 1200;
        is_active = true;
      }
      ∷ [];
  loans = [];
  next_order = 1;
  next_rfq = 1;
  next_loan = 1;
}

abbrev placement : Placement
placement = record {
  merchant_id = 1;
  supplier_id = 2;
  payment_terms = 30;
  finance_requested = true;
  order_number = 555;
  today = 100;
}

abbrev line : Line
line = record { catalog_item_id = 7; quantity = some (pos 4) }

abbrev keep : ℤ → ℤ
keep a = a

get_tracking_events_course_example :
    InOrder 0 (get_tracking_events (some 12))
    × Rising (get_tracking_events (some 12))
    × (3 ≤ length (get_tracking_events (some 12)))
    × (length (get_tracking_events (some 12)) ≤ 5)
get_tracking_events_course_example = get_tracking_events_course 12
