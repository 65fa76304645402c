-- ===== src/Webhooks/Models.antt =====
-- The rows that webhooks read and write (app/models). An event's payload, an url, a secret and an
-- error text are numbers.
use retail_iq.Base.{ℕ, Option, List}

pub data Status : Type 0 where
  pending delivered failed dead_lettered : Status

pub record DeveloperApplication : Type 0 where
  pub id : ℕ
  pub scopes : List ℕ
  pub webhook_url : Option ℕ
  pub webhook_secret : Option ℕ

-- An error text: of a retry, of a failed request, or another.
pub data Failure : Type 0 where
  retry_triggered : Failure
  other : ℕ → Failure

pub record WebhookEvent : Type 0 where
  pub id : ℕ
  pub app_id : ℕ
  pub event_type : ℕ
  pub payload : ℕ
  pub status : Status
  pub delivery_url : ℕ
  pub last_response_code : Option ℕ
  pub last_attempt_at : Option ℕ
  pub attempt_count : ℕ
  pub last_error : Option Failure

-- A request that was sent: where to, the event, and the secret that signed it.
pub record Post : Type 0 where
  pub url : ℕ
  pub event_id : ℕ
  pub payload : ℕ
  pub signed_with : Option ℕ

pub record Db : Type 0 where
  pub apps : List DeveloperApplication
  pub events : List WebhookEvent
  pub posts : List Post
  pub queued : List ℕ
  pub next_event : ℕ

-- What the request to the receiver gives: a status code, or a `RequestException`, or another error.
pub data Response : Type 0 where
  answered : ℕ → Response
  unreachable : ℕ → Response
  broken : ℕ → Response

-- How the task ends: it returns, or it raises, with or without a retry asked for.
pub data Ending : Type 0 where
  returned : Ending
  retried : Ending
  raised : Ending
