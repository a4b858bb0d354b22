-- ===== src/Schemas.antt =====
-- app/schemas.py: the states of a task, their public form, and the plan of a submission.
pub mod Lifecycle
use stask_service.Prelude.{
  ℕ, Text, text_eq, codes, lower, Bool, true, false, ◌||◌, any, List, [], ◌∷◌, Option,
}

-- `foreign` is a value that another program wrote into the shared column.
pub data Status : Type 0 where
  queued in_progress success failure canceled : Status
  foreign : Text → Status

abbrev pub status_eq : Status → Status → Bool
status_eq queued queued = true
status_eq in_progress in_progress = true
status_eq success success = true
status_eq failure failure = true
status_eq canceled canceled = true
status_eq (foreign a) (foreign b) = text_eq a b
status_eq _ _ = false

-- `status in statuses`
abbrev pub is_among : Status → List Status → Bool
is_among s statuses = any (status_eq s) statuses

abbrev pub active : List Status
active = queued ∷ in_progress ∷ []

abbrev pub pending : List Status
pending = queued ∷ []

abbrev pub terminal : List Status
terminal = success ∷ failure ∷ canceled ∷ []

unfoldable pub public_status : Status → Text
public_status queued = codes "queued"
public_status in_progress = codes "in_progress"
public_status success = codes "success"
public_status failure = codes "failure"
public_status canceled = codes "canceled"
public_status (foreign s) = lower s

pub record SubmitPlan : Type 0 where
  pub task_id : Text
  pub token_hash : Text
  pub user_id : ℕ
  pub model : Text
  pub method : Text
  pub path : Text
  pub query : Text
  pub headers : List (Text × Text)
  pub body : Text
  pub body_encoding : Text
  pub body_truncated : Bool
  pub upstream_base_url : Text
  pub idempotency_key : Text
  pub callback_url : Text
  pub scheduled_at : ℕ
  pub batch_size : Option ℕ
  pub batch_wait : Option ℕ
  pub batch_key : Option Text
