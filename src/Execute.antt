-- ===== src/Execute.antt =====
-- app/services/execute.py: one execution of a task. `parse_for_store` of app/services/artifacts.py
-- and `upstream_error_detail` of app/services/outcome.py are arguments: what they find in a body.
pub mod Settle
pub mod Upstream
pub mod Kept
pub mod Silent
pub mod Growth
pub mod Calls
pub mod Redelivery
pub mod Attempts
pub mod Overtaken
use stask_service.Prelude.{
  ℕ, suc, ◌+◌, Text, codes, Bool, true, false, not, ◌==◌, if◌then◌else◌, Option, none, some, List,
  [], ◌∷◌, ◌++◌,
}
use stask_service.Schemas.{
  Status, queued, in_progress, failure, canceled, pending, active, is_among,
}
use stask_service.Rows.{Row, TaskData}
use stask_service.Service.{World, Service, put_at, pure, gets, external, catch, ◌>>=◌, ◌>>◌}
use stask_service.Store.{get, cas}
use stask_service.Sessions
use stask_service.Gate.{is_blank}
use stask_service.Codec.{Coders, decode}
use Settle.{
  Outcome, Stage, not_found, already_terminal, lock_held, token_missing, bad_request_body, crashed,
  finalize, no_status,
}
use Upstream.{call_upstream}

-- SET NX; where Redis fails, the answer is no
unfoldable pub acquire_dispatch_lock : Text → ℕ → Service Bool
acquire_dispatch_lock tid epoch =
    catch
      (external (λ w. elim (w.locks tid) [
        | none ↦ (true, record w { locks = put_at tid (some epoch) w.locks })
        | some e ↦ (false, w)
      ]))
      (λ _. pure false)

abbrev pub with_epoch : ℕ → TaskData → TaskData
with_epoch epoch d = record d { dispatch_epoch = epoch }

module _ (coders : Coders) (parse_for_store : Text → Text)
    (upstream_error_detail : Text → Text → Text) where
  abbrev body_of : TaskData → Option Text
  body_of d =
      if is_blank d.request_body
      then some []
      else decode coders d.request_body d.request_body_encoding

  fail_early : Text → TaskData → Text → Stage → Service Outcome
  fail_early tid d reason stage = do
    finalize tid d failure no_status reason none
    pure (record { stage = stage; attempts = 0 })

  -- `_dispatch`
  dispatch : Text → TaskData → Service Outcome
  unfolding fail_early
  dispatch tid d = do
    w ← gets (λ w. w)
    elim (body_of d) [
      | none ↦ fail_early tid d (codes "stored request body undecodable") bad_request_body
      | some body ↦
          call_upstream coders parse_for_store upstream_error_detail tid d
            w.config.retry_max_connect w.config.retry_max 0
    ]

  -- step 3
  pub with_session : Text → TaskData → Option Text → Service Outcome
  unfolding dispatch fail_early
  with_session tid d none =
      fail_early tid d (codes "token session missing (expired or redis lost)") token_missing
  with_session tid d (some []) =
      fail_early tid d (codes "token session missing (expired or redis lost)") token_missing
  with_session tid d (some (c ∷ raw_token)) = dispatch tid d

  -- steps 1 to 4, for the row that was read
  unfoldable pub run_row : Text → Row → Service Outcome
  unfolding with_session
  run_row tid row =
      let epoch = row.task_data.dispatch_epoch + 1 in
      if is_among row.status active
      then (do
        _ ← cas tid pending in_progress (with_epoch epoch) [] none
        locked ← acquire_dispatch_lock tid epoch
        if locked
            then (do session ← Sessions.get tid; with_session tid row.task_data session)
            else pure (record { stage = lock_held; attempts = 0 }))
      else pure (record { stage = already_terminal; attempts = 0 })

  run_found : Text → Option Row → Service Outcome
  run_found tid none = pure (record { stage = not_found; attempts = 0 })
  run_found tid (some row) = run_row tid row

  -- `run`: no exception leaves it
  unfoldable pub run : Text → Service Outcome
  unfolding run_found
  run tid =
      catch (do row ← get tid; run_found tid row)
        (λ _. pure (record { stage = crashed; attempts = 0 }))
