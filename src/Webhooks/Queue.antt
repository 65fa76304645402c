-- ===== src/Webhooks/Queue.antt =====
-- app/utils/webhooks.py: events are created and queued.
use retail_iq.Base.{
  ℕ, suc, Bool, true, false, Option, none, some, List, [], ◌∷◌, ◌==◌, if◌then◌else◌, find_first,
  select,
}
use retail_iq.Webhooks.Models.{Status, DeveloperApplication, WebhookEvent, Db}
use retail_iq.Webhooks.Delivery.{is_app}

abbrev pub new_event : ℕ → ℕ → ℕ → ℕ → Db → WebhookEvent
new_event app type payload url db = record {
  id = db.next_event;
  app_id = app;
  event_type = type;
  payload = payload;
  status = Status.pending;
  delivery_url = url;
  last_response_code = none;
  last_attempt_at = none;
  attempt_count = 0;
  last_error = none;
}

abbrev pub add_event : ℕ → ℕ → ℕ → ℕ → Db → Db
add_event app type payload url db = record db {
  events = new_event app type payload url db ∷ db.events;
  queued = db.next_event ∷ db.queued;
  next_event = suc db.next_event;
}

unfoldable pub queue_webhook_event : ℕ → ℕ → ℕ → Db → Option ℕ × Db
queue_webhook_event app type payload db = elim (find_first (is_app app) db.apps) [
  | none ↦ (none, db)
  | some a ↦ elim a.webhook_url [
    | none ↦ (none, db)
    | some url ↦ (some db.next_event, add_event app type payload url db)
  ]
]

abbrev pub has_url : DeveloperApplication → Bool
has_url a = elim a.webhook_url [ none ↦ false | some url ↦ true ]

abbrev pub has_scope : ℕ → List ℕ → Bool
has_scope s [] = false
has_scope s (x ∷ xs) = if x == s then true else has_scope s xs

abbrev pub is_allowed : Option ℕ → DeveloperApplication → Bool
is_allowed none a = true
is_allowed (some s) a = has_scope s a.scopes

abbrev pub and_then : Option ℕ → List ℕ → List ℕ
and_then none ids = ids
and_then (some i) ids = i ∷ ids

unfoldable pub broadcast_to : ℕ → ℕ → Option ℕ → List DeveloperApplication → Db → List ℕ × Db
unfolding queue_webhook_event
broadcast_to type payload scope [] db = ([], db)
broadcast_to type payload scope (a ∷ rest) db =
    let (i, db') = queue_webhook_event a.id type payload db in
    let (skipped, db₁) = broadcast_to type payload scope rest db in
    let (ids, db₂) = broadcast_to type payload scope rest db' in
    if is_allowed scope a then (and_then i ids, db₂) else (skipped, db₁)

unfoldable pub broadcast_event : ℕ → ℕ → Option ℕ → Db → List ℕ × Db
unfolding broadcast_to
broadcast_event type payload scope db = broadcast_to type payload scope (select has_url db.apps) db
