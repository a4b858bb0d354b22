-- ===== src/System.antt =====
-- The service as a whole: its routes and the tasks of its workers as the events of one system, in
-- any order. What others do while a handler sleeps is again a sequence of events.
pub mod Lifecycle
pub mod Refinement
use stask_service.Prelude.{ℕ, Text, Bool, Option, List, [], ◌∷◌}
use stask_service.Policy.{Fields}
use stask_service.Service.{World, Message}
use stask_service.Dispatch.{release}
use stask_service.Admission.Requests.{Headers}
use stask_service.Dynconf
use stask_service.Dynconf.{Cache}
use stask_service.Workers.{Tools, Job, consume, tick, sweep}
use stask_service.Routes
use stask_service.Routes.{Request, Settings, Draws}
use stask_service.Routes.Submitting.{submit_task}
use stask_service.Routes.Asking.{get_task, cancel_task}
use stask_service.Routes.Ops.{run_sweep_stale, recalibrate}
use stask_service.Routes.Admin.{requeue, write_config, reset_config, run_job}

pub record Deployment : Type 0 where
  pub routes : Routes.Libraries
  pub settings : Settings
  pub admin_key : Text
  pub tools : Tools
  pub dynconf : Dynconf.Libraries

mutual
  pub data Event : Type 0 where
    submits : Rounds → Draws → Request → Event
    asks : Rounds → Request → Event
    cancels : Request → Event
    requeues : Headers → Text → Event
    configures : Headers → Bool → Fields → Cache → Event
    resets : Headers → List Text → Cache → Event
    runs_job : Headers → Text → Event
    runs_sweep_stale : Headers → Event
    recalibrates : Headers → Event
    consumes : Message → Event  -- also one that was consumed before
    ticks : Rounds → Event
    sweeps : Job → Event
    releases : Text → Option ℕ → Event
    -- time goes by, keys expire, calls start to fail: all but the table may change
    elsewhere : World → Event

  pub data Events : Type 0 where
    done : Events
    next : Event → Events → Events

  -- the events of each sleep
  pub data Rounds : Type 0 where
    awake : Rounds
    asleep : Events → Rounds → Rounds

module _ (d : Deployment) where
  unfoldable mutual
    pub perform : Event → World → World
    perform (submits rounds draws q) w =
        (submit_task d.routes d.settings (others_of rounds) draws q w).1
    perform (asks rounds q) w = (get_task d.routes (others_of rounds) q w).1
    perform (cancels q) w = (cancel_task q w).1
    perform (requeues headers tid) w = (requeue d.admin_key headers tid w).1
    perform (configures headers merge updates c) w =
        (write_config d.admin_key headers d.dynconf merge updates c w).1
    perform (resets headers keys c) w = (reset_config d.admin_key headers d.dynconf keys c w).1
    perform (runs_job headers name) w = (run_job d.admin_key headers name w).1
    perform (runs_sweep_stale headers) w = (run_sweep_stale d.routes.sha256_hex headers w).1
    perform (recalibrates headers) w = (recalibrate d.routes.sha256_hex headers w).1
    perform (consumes m) w = (consume d.tools m w).1
    perform (ticks rounds) w = (tick (others_of rounds) w).1
    perform (sweeps job) w = (sweep d.tools job w).1
    perform (releases tid moment) w = (release tid moment w).1
    perform (elsewhere v) w = record v { rows = w.rows }

    pub perform_all : Events → World → World
    perform_all done w = w
    perform_all (next e es) w = perform_all es (perform e w)

    pub others_of : Rounds → List (World → World)
    others_of awake = []
    others_of (asleep es rounds) = (λ w. perform_all es w) ∷ others_of rounds
