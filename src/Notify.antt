-- ===== src/Notify.antt =====
-- app/services/notify.py: the callback that tells a client of the end of a task. `urlsplit`, the
-- HMAC in hexadecimal and `json.dumps` of the payload are arguments.
pub mod Followup
pub mod Chain
pub mod Growth
use stask_service.Prelude.{
  ℕ, suc, ◌+◌, ◌^◌, min, Text, codes, text_eq, strip, lower, Bool, true, false, not, ltb, leb, ◌&&◌,
  ◌||◌, if◌then◌else◌, Option, none, some, List, [], ◌∷◌, ◌++◌,
}
use stask_service.Schemas.{public_status}
use stask_service.Rows.{Row, TaskData}
use stask_service.Admission.{Parts, is_http, has_code}
use stask_service.Gate.{is_blank}
use stask_service.Service.{
  World, Service, Reply, connect_error, broken, response, Callback, pure, gets, ◌>>=◌, ◌>>◌,
}
use stask_service.Store.{now, get_meta, patch_data}
use stask_service.Sessions.{publish_notify}
use stask_service.Execute.Upstream.{next_reply}
use stask_service.Execute.Settle.{str_of}

pub record Payload : Type 0 where
  pub task_id : Text
  pub status : Text
  pub created_at : ℕ
  pub finish_time : ℕ
  pub upstream_status : ℕ
  pub fail_reason : Text

pub record Settings : Type 0 where
  pub callback_secret : Text
  pub callback_allowlist : List Text

-- what the libraries compute
pub record Libraries : Type 0 where
  pub urlsplit : Text → Parts
  pub hmac_sha256 : Text → Text → Text
  pub dumps : Payload → Text

-- what a delivery reports
pub data Delivery : Type 0 where
  task_row_missing no_callback_url url_not_allowlisted delivered exhausted : Delivery
  retry_in_seconds : ℕ → Delivery

-- f"{timestamp}." + body
abbrev pub signed_text : Text → ℕ → Text
signed_text body timestamp = str_of timestamp ++ b'.' ∷ body

-- without a secret there is no signature
unfoldable pub sign : Libraries → Settings → Text → ℕ → Text
sign lib s body timestamp =
    if is_blank s.callback_secret
    then []
    else codes "sha256=" ++ lib.hmac_sha256 s.callback_secret (signed_text body timestamp)

matches : Text → Text → Text → Bool
matches host hostname item =
    if is_blank item
    then false
    else if has_code b':' item
    then text_eq host item
    else text_eq hostname item

any_matches : List Text → Text → Text → Bool
unfolding matches
any_matches [] host hostname = false
any_matches (item ∷ items) host hostname =
    let rest = any_matches items host hostname in
    if matches host hostname (lower (strip item)) then true else rest

allows : List Text → Parts → Bool
unfolding any_matches
allows [] p = true
allows (item ∷ items) p = any_matches (item ∷ items) (lower p.netloc) (lower p.hostname)

unfoldable pub url_allowed : Libraries → Settings → Text → Bool
unfolding allows
url_allowed lib s url =
    let p = lib.urlsplit url in
    if not (is_http p.scheme) || is_blank p.hostname
    then false
    else if not (is_blank p.username) || not (is_blank p.password)
    then false
    else allows s.callback_allowlist p

abbrev pub payload_of : Text → Row → Payload
payload_of tid r = record {
  task_id = tid;
  status = public_status r.status;
  created_at = r.created_at;
  finish_time = r.finish_time;
  upstream_status = r.task_data.upstream_status;
  fail_reason = r.fail_reason;
}

-- client.post
unfoldable pub post : Callback → Service Reply
unfolding next_reply
post c w =
    let r = next_reply w.replies in pure r.0 (record w { replies = r.1; posts = w.posts ++ c ∷ [] })

-- an answer from 200 to 299; an exception of httpx is a failure like any other answer
abbrev pub is_accepted : Reply → Bool
is_accepted (connect_error name) = false
is_accepted (broken name) = false
is_accepted (response status content_type raw) = leb 200 status && ltb status 300

with_delivered : TaskData → TaskData
with_delivered d = record d { callback_delivered = some true }

with_attempts : ℕ → TaskData → TaskData
with_attempts n d = record d { callback_delivered = some false; callback_attempts = n }

abbrev pub delay_of : ℕ → ℕ
delay_of attempt = min (2 ^ attempt) 300

-- what follows a callback that was not accepted
unfoldable pub try_later : Text → ℕ → Service Delivery
unfolding with_attempts
try_later tid attempt = do
  most ← gets (λ w. w.config.callback_max_attempts)
  if leb most attempt then (do patch_data tid (with_attempts attempt); pure exhausted) else (do
    publish_notify tid (attempt + 1) (delay_of attempt)
    pure (retry_in_seconds (delay_of attempt)))

after_post : Text → ℕ → Reply → Service Delivery
unfolding with_delivered
after_post tid attempt reply =
    if is_accepted reply
    then (do patch_data tid with_delivered; pure delivered)
    else try_later tid attempt

module _ (lib : Libraries) (s : Settings) where
  callback_of : Text → Row → ℕ → Callback
  callback_of tid r ts = record {
    task = tid;
    url = r.task_data.callback_url;
    body = lib.dumps (payload_of tid r);
    timestamp = ts;
    signature = sign lib s (lib.dumps (payload_of tid r)) ts;
  }

  deliver_row : Text → ℕ → Row → Service Delivery
  unfolding callback_of after_post
  deliver_row tid attempt r =
      if is_blank r.task_data.callback_url
      then pure no_callback_url
      else if url_allowed lib s r.task_data.callback_url
      then (do ts ← now; reply ← post (callback_of tid r ts); after_post tid attempt reply)
      else pure url_not_allowlisted

  deliver_found : Text → ℕ → Option Row → Service Delivery
  unfolding deliver_row
  deliver_found tid attempt none = pure task_row_missing
  deliver_found tid attempt (some r) = deliver_row tid attempt r

  unfoldable pub deliver : Text → ℕ → Service Delivery
  unfolding deliver_found
  deliver tid attempt = do row ← get_meta tid; deliver_found tid attempt row
