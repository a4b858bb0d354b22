-- ===== src/Rows.antt =====
-- app/models.py and app/services/submit.py: a row of the `tasks` table, and its JSON column.
-- The table of the model holds this service's rows, those with its own `platform`.
use stask_service.Prelude.{ℕ, Text, Bool, Option, List}
use stask_service.Schemas.{Status}

-- `data.batch_state`; `absent` is a row without the key.
pub data BatchState : Type 0 where
  absent waiting scheduled immediate releasing released : BatchState

-- The JSON object `tasks.data`. A key that was never written reads as "", 0 or `false`, which is
-- what every reader makes of it (`or ""`, `or 0`).
pub record TaskData : Type 0 where
  pub source : Text
  pub model : Text
  pub token_hash : Text
  pub idempotency_key : Text
  pub callback_url : Text
  pub request_method : Text
  pub request_path : Text
  pub request_query : Text
  pub request_headers : List (Text × Text)
  pub request_body : Text
  pub request_body_encoding : Text
  pub body_truncated : Bool
  pub upstream_base_url : Text
  pub upstream_response : Text
  pub upstream_response_encoding : Text
  pub upstream_content_type : Text
  pub upstream_status : ℕ
  pub response_bytes : ℕ
  pub result_purged : Bool
  pub result_url : Text
  pub dispatch_epoch : ℕ
  pub scheduled_at : ℕ
  pub batch_state : BatchState
  pub slot_model : Text
  pub slot_flags : ℕ
  pub batch_key : Text
  pub batch_size : ℕ
  pub batch_wait : ℕ
  pub batch_policy_source : Text
  pub batch_due_at : ℕ
  pub requeue_attempts : ℕ
  pub requeue_due_at : ℕ
  pub released_at : ℕ
  pub requeued_at : ℕ
  pub callback_delivered : Option Bool
  pub callback_attempts : ℕ

pub record Row : Type 0 where
  pub task_id : Text
  pub action : Text
  pub status : Status
  pub fail_reason : Text
  pub progress : ℕ  -- a percentage
  pub submit_time : ℕ
  pub start_time : ℕ
  pub finish_time : ℕ
  pub created_at : ℕ
  pub updated_at : ℕ
  pub task_data : TaskData
  pub private_result_url : Text  -- private_data.result_url
  pub user_id : ℕ
  pub channel_id : ℕ
  pub quota : ℕ
