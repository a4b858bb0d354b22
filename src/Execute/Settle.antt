-- ===== src/Execute/Settle.antt =====
-- app/services/execute.py: `_finalize` and `_settle_response`, how a task reaches its end; the
-- stages of app/services/outcome.py.
use stask_service.Prelude.{
  ℕ, zero, suc, ◌+◌, ◌/◌, ◌%◌, Text, codes, Bool, false, not, ltb, leb, ◌&&◌, if◌then◌else◌, length,
  Option, none, some, [], ◌∷◌, ◌++◌,
}
use stask_service.Schemas.{Status, success, failure, active}
use stask_service.Rows.{TaskData}
use stask_service.Service.{Service, pure, gets, catch, quietly, when, ◌>>=◌, ◌>>◌}
use stask_service.Store.{cas}
use stask_service.Gate.{release_for_task, is_blank}
use stask_service.Sessions.{clear, publish_notify}
use stask_service.Codec.{Coders, encode}

-- the field `stage` of an Outcome; `succeeded` is "success"
pub data Stage : Type 0 where
  not_found already_terminal lock_held token_missing bad_request_body : Stage
  unreachable timeout response_too_large succeeded upstream_error crashed : Stage

-- the report of an execution; nothing reads it
pub record Outcome : Type 0 where
  pub stage : Stage
  pub attempts : ℕ

won_or_failed : Option Bool → Bool
won_or_failed none = false
won_or_failed (some b) = b

unfoldable pub finalize :
    Text → TaskData → Status → (TaskData → TaskData) → Text → Option Text → Service (Unit {0})
unfolding won_or_failed
finalize tid d status patch reason private_url = do
  won ←
      catch (do b ← cas tid active status patch reason private_url; pure (some b)) (λ _. pure none)
  when (won_or_failed won) (do
    release_for_task d
    clear tid
    when (not (is_blank d.callback_url)) (quietly (publish_notify tid 1 0)))

abbrev pub no_status : TaskData → TaskData
no_status d = record d { upstream_status = 0 }

-- the decimal digits of a number, for the messages
unfoldable pub digits : ℕ → ℕ → Text
digits zero n = []
digits (suc fuel) n =
    let rest = digits fuel (n / 10) in
    if ltb n 10 then (b'0' + n) ∷ [] else rest ++ (b'0' + n % 10) ∷ []

unfoldable pub str_of : ℕ → Text
unfolding digits
str_of n = digits (suc n) n

abbrev pub head_patch : ℕ → Text → ℕ → TaskData → TaskData
head_patch status content_type bytes d = record d {
  upstream_status = status;
  upstream_content_type = content_type;
  response_bytes = bytes;
}

abbrev pub body_patch : ℕ → Text → ℕ → Text × Text → TaskData → TaskData
body_patch status content_type bytes stored d = record (head_patch status content_type bytes d) {
  upstream_response = stored.0;
  upstream_response_encoding = stored.1;
}

-- the patch and the private URL where there is a primary product
abbrev pub with_url : Text → TaskData → TaskData
with_url url d = if is_blank url then d else record d { result_url = url }

abbrev pub url_of : Text → Option Text
url_of url = if is_blank url then none else some url

failure_reason : ℕ → Text → Text
failure_reason status detail =
    if is_blank detail
    then codes "upstream " ++ str_of status
    else codes "upstream " ++ str_of status ++ codes ": " ++ detail

module _ (coders : Coders) (parse_for_store : Text → Text)
    (upstream_error_detail : Text → Text → Text) where
  unfoldable pub settle_response : Text → TaskData → ℕ → Text → Text → ℕ → Service Outcome
  unfolding failure_reason
  settle_response tid d status content_type raw attempts = do
    config ← gets (λ w. w.config)
    if ltb config.response_max_bytes (length raw)
        then (do
          finalize tid d failure (head_patch status content_type (length raw))
              (codes "response too large: " ++ str_of (length raw) ++ codes " bytes") none
          pure (record { stage = response_too_large; attempts = attempts }))
        else (let patch =
              body_patch status content_type (length raw)
                (encode coders raw config.plain_max_bytes) in
            if leb 200 status && ltb status 300
            then (do
              let url = parse_for_store raw
              finalize tid d success (λ x. with_url url (patch x)) [] (url_of url)
              pure (record { stage = succeeded; attempts = attempts }))
            else (do
              finalize tid d failure patch
                  (failure_reason status (upstream_error_detail raw content_type)) none
              pure (record { stage = upstream_error; attempts = attempts })))
