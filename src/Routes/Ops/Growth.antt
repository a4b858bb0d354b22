-- ===== src/Routes/Ops/Growth.antt =====
-- The jobs of a caller move rows along the state machine only.
use stask_service.Prelude.{Text, Option, none, some, List}
use stask_service.Rows.{Row}
use stask_service.Service.Keeps.{Keeps, Keeps-pure, Keeps-raise, Keeps-bind}
use stask_service.Store.Growth.{GrownFrom}
use stask_service.Admission.Requests.{Headers}
use stask_service.Workers.{Job, stale, slots}
use stask_service.Workers.Growth.{body_of-Grown}
use stask_service.Routes.{Caller}
use stask_service.Routes.Ops.{of_caller, with_caller, run_sweep_stale, recalibrate}

module _ (sha256_hex : Text → Text) (headers : Headers) where
  module _ (rs : List Row) where
    of_caller-Grown : (o : Option Caller) → Keeps (GrownFrom rs) (of_caller o)
    unfolding of_caller
    of_caller-Grown none = Keeps-raise _
    of_caller-Grown (some c) = Keeps-pure c

    with_caller-Grown : (job : Job) → Keeps (GrownFrom rs) (with_caller sha256_hex headers job)
    unfolding with_caller
    with_caller-Grown job = Keeps-bind _ _ (of_caller-Grown _) (λ c. body_of-Grown rs job)

    pub run_sweep_stale-Grown : Keeps (GrownFrom rs) (run_sweep_stale sha256_hex headers)
    unfolding run_sweep_stale
    run_sweep_stale-Grown = with_caller-Grown stale

    pub recalibrate-Grown : Keeps (GrownFrom rs) (recalibrate sha256_hex headers)
    unfolding recalibrate
    recalibrate-Grown = with_caller-Grown slots
