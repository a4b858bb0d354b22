-- ===== src/Routes/Ops.antt =====
-- app/routers/ops.py: the two jobs that any caller with a token starts.
pub mod Growth
use stask_service.Prelude.{Text, Option, none, some}
use stask_service.Service.{World, Service, http, pure, raise, ◌>>=◌, ◌>>◌}
use stask_service.Admission.Requests.{Headers}
use stask_service.Workers.{Job, stale, slots, body_of}
use stask_service.Routes.{Caller, require_caller}

-- the dependency on a caller
of_caller : Option Caller → Service Caller
of_caller none = raise (http 401)
of_caller (some c) = pure c

module _ (sha256_hex : Text → Text) (headers : Headers) where
  with_caller : Job → Service (Unit {0})
  unfolding of_caller
  with_caller job = do _ ← of_caller (require_caller sha256_hex headers); body_of job

  unfoldable pub run_sweep_stale : Service (Unit {0})
  unfolding with_caller
  run_sweep_stale = with_caller stale

  unfoldable pub recalibrate : Service (Unit {0})
  unfolding with_caller
  recalibrate = with_caller slots
