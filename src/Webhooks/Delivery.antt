-- ===== src/Webhooks/Delivery.antt =====
-- app/tasks/webhook_tasks.py: `deliver_webhook`. `self.retry` raises `Retry` while there are retries
-- left and the given exception after that; both are raised out of the task here, and both are
-- caught by the last handler when they are raised in the body of the `try`.
use retail_iq.Base.{
  ℕ, suc, Bool, true, false, ◌&&◌, Option, none, some, ◌∷◌, ◌==◌, ltb, leb, if◌then◌else◌,
  find_first, update_first,
}
use retail_iq.Webhooks.Models.{
  Status, DeveloperApplication, Failure, WebhookEvent, Post, Db, Response, answered, unreachable,
  broken, Ending, returned, retried, raised,
}

abbrev pub max_retries : ℕ
max_retries = 6

abbrev pub is_event : ℕ → WebhookEvent → Bool
is_event i e = e.id == i

abbrev pub is_app : ℕ → DeveloperApplication → Bool
is_app i a = a.id == i

abbrev pub is_final : Status → Bool
is_final Status.delivered = true
is_final Status.dead_lettered = true
is_final _ = false

abbrev pub set_event : ℕ → (WebhookEvent → WebhookEvent) → Db → Db
set_event i f db = record db { events = update_first (is_event i) f db.events }

abbrev pub set_status : Status → WebhookEvent → WebhookEvent
set_status s e = record e { status = s }

abbrev pub count_attempt : ℕ → WebhookEvent → WebhookEvent
count_attempt now e = record e { last_attempt_at = some now; attempt_count = suc e.attempt_count }

abbrev pub note_code : ℕ → WebhookEvent → WebhookEvent
note_code code e = record e { last_response_code = some code }

-- The last handler: the error is noted, and after the last retry the event is given up.
abbrev pub give_up : ℕ → Failure → WebhookEvent → WebhookEvent
give_up retries error e = record e {
  status = if leb max_retries retries then Status.dead_lettered else Status.failed;
  last_error = some error;
}

abbrev pub is_success : ℕ → Bool
is_success code = leb 200 code && ltb code 300

-- How a call of `self.retry` ends: with a `Retry` while retries are left.
abbrev pub retry : ℕ → Ending
retry retries = if ltb retries max_retries then retried else raised

-- What the response makes of the event; `retries` is the number of retries so far.
abbrev pub after : ℕ → ℕ → Response → WebhookEvent → WebhookEvent
after now retries (answered code) e =
    if is_success code
    then set_status Status.delivered (count_attempt now (note_code code e))
    else give_up retries Failure.retry_triggered (count_attempt now (note_code code e))
after now retries (unreachable error) e = set_status Status.failed (count_attempt now e)
after now retries (broken error) e = give_up retries (Failure.other error) e

abbrev pub ending : ℕ → Response → Ending
ending retries (answered code) = if is_success code then returned else retry retries
ending retries (unreachable error) = retry retries
ending retries (broken error) = raised

abbrev pub sent : DeveloperApplication → WebhookEvent → Post
sent app e = record {
  url = e.delivery_url;
  event_id = e.id;
  payload = e.payload;
  signed_with = app.webhook_secret;
}

abbrev pub post : ℕ → ℕ → Response → ℕ → DeveloperApplication → WebhookEvent → Db → Ending × Db
post now retries response i app e db = (
  ending retries response,
  set_event i (after now retries response) (record db { posts = sent app e ∷ db.posts }),
)

-- The application, if it has an url.
abbrev pub find_receiver : ℕ → Db → Option DeveloperApplication
find_receiver i db = elim (find_first (is_app i) db.apps) [
  | none ↦ none
  | some a ↦ elim a.webhook_url [ none ↦ none | some url ↦ some a ]
]

unfoldable pub deliver_webhook : ℕ → ℕ → Response → ℕ → Db → Ending × Db
deliver_webhook now retries response i db = elim (find_first (is_event i) db.events) [
  | none ↦ (returned, db)
  | some e ↦ if is_final e.status then (returned, db) else elim (find_receiver e.app_id db) [
    | none ↦ (returned, set_event i (set_status Status.failed) db)
    | some app ↦ post now retries response i app e db
  ]
]
