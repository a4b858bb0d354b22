-- ===== src/Flow/Replay.antt =====
-- app/services/flow.py: `_replay`, `_view` and `_inject_status`. `set_status` is the work of the JSON
-- library there: the body with its field `status` set, or nothing where it is no JSON object.
pub mod Bytes
use stask_service.Prelude.{
  ℕ, suc, Text, codes, lower, Bool, true, false, leb, ◌==◌, if◌then◌else◌, Option, none, some, List,
  [], ◌∷◌,
}
use stask_service.Schemas.{Status, canceled, status_eq, public_status}
use stask_service.Rows.{Row, TaskData}
use stask_service.Gate.{is_blank}
use stask_service.Batching.Params.{public_batch_state}
use stask_service.Policy.Resolve.{starts_with}
use stask_service.Codec.{Coders, decode}

-- the codes of an error body that a replay answers with
pub data ErrorCode : Type 0 where
  result_expired upstream_no_body result_corrupted : ErrorCode

pub data Content : Type 0 where
  view_of : ℕ → ℕ → ℕ → Text → Text → Content  -- created, updated, scheduled, batch key and state
  error_body : ErrorCode → Content
  stored_body : Text → Text → Content  -- content type and bytes

pub record Response : Type 0 where
  pub code : ℕ
  pub task_status : Text
  pub content : Content

unfoldable pub view_content : Row → Content
view_content row =
    view_of row.created_at row.updated_at row.task_data.scheduled_at row.task_data.batch_key
      (public_batch_state row.task_data.batch_state)

-- the answer 202
unfoldable pub accepted : Row → Response
accepted row = record {
  code = 202;
  task_status = public_status row.status;
  content = view_content row;
}

abbrev pub or_json : Text → Text
or_json s = if is_blank s then codes "application/json" else s

-- `"json" in content_type.lower()`
unfoldable pub contains : Text → Text → Bool
contains part [] = is_blank part
contains part (c ∷ s) =
    let rest = contains part s in if starts_with (c ∷ s) part then true else rest

abbrev pub is_json : Text → Bool
is_json content_type = contains (codes "json") (lower content_type)

abbrev or_same : Option Text → Text → Text
or_same none raw = raw
or_same (some s) raw = s

module _ (coders : Coders) (set_status : Text → Text → Option Text) where
  unfoldable pub inject_status : Text → Text → Status → Text
  inject_status raw content_type status =
      if is_blank raw
      then raw
      else if is_json content_type
      then or_same (set_status raw (public_status status)) raw
      else raw

  of_decoded : Row → Option Text → Response
  unfolding inject_status
  of_decoded row none = record {
    code = 500;
    task_status = public_status row.status;
    content = error_body result_corrupted;
  }
  of_decoded row (some raw) = record {
    code = if row.task_data.upstream_status == 0 then 200 else row.task_data.upstream_status;
    task_status = public_status row.status;
    content =
        stored_body (or_json row.task_data.upstream_content_type)
          (inject_status raw (or_json row.task_data.upstream_content_type) row.status);
  }

  without_body : Row → Response
  without_body row =
      if row.task_data.result_purged
      then record {
        code = 410;
        task_status = public_status row.status;
        content = error_body result_expired;
      }
      else record {
        code = if leb 400 row.task_data.upstream_status then row.task_data.upstream_status else 502;
        task_status = public_status row.status;
        content = error_body upstream_no_body;
      }

  unfoldable pub replay : Row → Response
  unfolding of_decoded without_body
  replay row =
      if status_eq row.status canceled
      then record { code = 200; task_status = public_status row.status; content = view_content row }
      else if is_blank row.task_data.upstream_response
      then without_body row
      else of_decoded row
          (decode coders row.task_data.upstream_response row.task_data.upstream_response_encoding)
