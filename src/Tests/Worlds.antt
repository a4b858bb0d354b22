-- ===== src/Tests/Worlds.antt =====
-- A configuration and a world with one queued task.
use stask_service.Prelude.{codes, true, false, none, [], ◌∷◌}
use stask_service.Prelude.Int.{pos}
use stask_service.Schemas.{queued, SubmitPlan}
use stask_service.Rows.{Row, TaskData, waiting}
use stask_service.Service.{Config, World}
use stask_service.Submit.Fields.{build_task_data}

abbrev pub some_config : Config
some_config = record {
  max_slots = 2;
  batch_enabled = true;
  batch_backoff_max_seconds = 60;
  max_batch_wait_seconds = 300;
  retry_max = 2;
  retry_max_connect = 3;
  response_max_bytes = 1000;
  plain_max_bytes = 100;
  group_by_token_model = false;
  channel_id = 0;
  callback_max_attempts = 5;
  worker_timeout = 120;
  dispatch_lock_margin_seconds = 30;
  sweep_batch_limit = 200;
  task_max_lifetime_seconds = 21600;
  result_ttl_seconds = 3600;
  result_purge_batch_limit = 200;
  body_max_bytes = 2000;
  rate_limit = 2;
  rate_limit_window_seconds = 60;
  max_delay_seconds = 3600;
  poll_wait_max_seconds = 30;
}

abbrev pub some_plan : SubmitPlan
some_plan = record {
  task_id = codes "gpt_1";
  token_hash = codes "aa";
  user_id = 7;
  model = codes "gpt";
  method = codes "POST";
  path = codes "/v1/images";
  query = [];
  headers = [];
  body = codes "{}";
  body_encoding = codes "plain";
  body_truncated = false;
  upstream_base_url = codes "https://up";
  idempotency_key = codes "k";
  callback_url = [];
  scheduled_at = 0;
  batch_size = none;
  batch_wait = none;
  batch_key = none;
}

abbrev pub some_data : TaskData
unfolding build_task_data
some_data = record (build_task_data some_plan) { batch_state = waiting }

abbrev pub some_row : Row
some_row = record {
  task_id = codes "gpt_1";
  action = codes "/v1/images";
  status = queued;
  fail_reason = [];
  progress = 0;
  submit_time = 100;
  start_time = 0;
  finish_time = 0;
  created_at = 100;
  updated_at = 100;
  task_data = some_data;
  private_result_url = [];
  user_id = 7;
  channel_id = 0;
  quota = 0;
}

abbrev pub empty_world : World
empty_world = record {
  clock = 200;
  config = some_config;
  policies = [];
  rows = [];
  counters = λ k. pos 0;
  due = [];
  batches = λ k. [];
  sessions = λ k. none;
  locks = λ k. none;
  placeholders = λ k. false;
  sweep_locks = λ k. false;
  statuses = λ k. none;
  sent = [];
  calls = [];
  replies = [];
  draws = [];
  posts = [];
  credentials = λ k. none;
  auth_cache = λ k. none;
  local_auth = [];
  overrides = [];
  windows = λ k. [];
  script = [];
}

abbrev pub some_world : World
some_world = record empty_world { rows = some_row ∷ [] }
