-- ===== src/Tests/Webhooks.antt =====
-- An application with an url and one event that waits.
use retail_iq.Base.{ℕ, ◌≡◌, refl, none, some, List, [], ◌∷◌, if◌then◌else◌, length}
use retail_iq.Webhooks.Models.{
  Status, DeveloperApplication, WebhookEvent, Db, Response, answered, unreachable,
}
use retail_iq.Webhooks.Queue.{broadcast_event, broadcast_to, queue_webhook_event}
use retail_iq.Webhooks.Attempts.{deliveries, tries, any_success}
use retail_iq.Webhooks.Ends.{Ends, deliveries_end, deliveries_unreachable}

abbrev client : DeveloperApplication
client = record { id = 4; scopes = 1 ∷ []; webhook_url = some 88; webhook_secret = some 5 }

abbrev waiting : WebhookEvent
waiting = record {
  id = 1;
  app_id = 4;
  event_type = 2;
  payload = 3;
  status = Status.pending;
  delivery_url = 88;
  last_response_code = none;
  last_attempt_at = none;
  attempt_count = 0;
  last_error = none;
}

abbrev box : Db
box = record {
  apps = client ∷ [];
  events = waiting ∷ [];
  posts = [];
  queued = 1 ∷ [];
  next_event = 2;
}

two_scopes : (broadcast_event 2 3 (some 1) box).0 ≡ 2 ∷ []
unfolding broadcast_event broadcast_to queue_webhook_event
two_scopes = refl

abbrev answers : List (ℕ × Response)
answers =
    (1, answered 500)
    ∷ (2, answered 503)
    ∷ (3, answered 204)
    ∷ (4, answered 200)
    ∷ (5, answered 200)
    ∷ (6, answered 200)
    ∷ (7, answered 200)
    ∷ []

deliveries_end_example :
    Ends 1 waiting
      (if any_success answers then Status.delivered else Status.dead_lettered)
      (tries answers)
      box
      (deliveries answers 0 1 box)
deliveries_end_example =
    deliveries_end answers 1 waiting client box
      (refl, (refl, (refl, (refl, (refl, (refl, (refl, tt))))))) refl (refl, refl, refl)

abbrev silence : List (ℕ × Response)
silence =
    (1, unreachable 9)
    ∷ (2, unreachable 9)
    ∷ (3, unreachable 9)
    ∷ (4, unreachable 9)
    ∷ (5, unreachable 9)
    ∷ (6, unreachable 9)
    ∷ (7, unreachable 9)
    ∷ []

deliveries_unreachable_example :
    Ends 1 waiting Status.failed (length silence) box (deliveries silence 0 1 box)
deliveries_unreachable_example =
    deliveries_unreachable silence 1 waiting client box
      (refl, (refl, (refl, (refl, (refl, (refl, (refl, tt))))))) refl (refl, refl, refl)
