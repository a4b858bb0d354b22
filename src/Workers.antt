-- ===== src/Workers.antt =====
-- app/queue.py: the bodies of the tasks that a worker takes from the queue or runs on schedule, and
-- the loop `tick` of app/services/batching.py.
pub mod Growth
use stask_service.Prelude.{
  ℕ, suc, ◌+◌, Text, codes, Bool, true, false, if◌then◌else◌, Option, none, some, List, [], ◌∷◌,
}
use stask_service.Service.{
  World, Service, Message, execute_task, notify_task, release_batch, pure, catch, when, ◌>>=◌, ◌>>◌,
}
use stask_service.Policy.{Json}
use stask_service.Codec.{Coders}
use stask_service.Artifacts.Parse.{parse_for_store}
use stask_service.Outcome.{upstream_error_detail}
use stask_service.Execute.{run}
use stask_service.Notify
use stask_service.Notify.{deliver}
use stask_service.Batching.Ticker.{tick_once, release_model}
use stask_service.Sweeper
use stask_service.Sweeper.{lock, purge_results}
use stask_service.Sweeper.Slots.{recalibrate_slots}

-- what the tasks call that this program has no code for, and settings
pub record Tools : Type 0 where
  pub coders : Coders
  pub loads : Text → Option Json
  pub is_base64 : Text → Bool
  pub decode_replace : Text → Text
  pub callbacks : Notify.Libraries
  pub callback_settings : Notify.Settings
  pub sweep_enabled : Bool

abbrev done {ℓ} : {A : Type ℓ} → Service A → Service (Unit {0})
done m = do _ ← m; pure tt

-- the main URL among the artifacts of an answer
abbrev pub result_url : Tools → Text → Text
result_url t raw = (parse_for_store t.is_base64 t.loads raw).result_url

-- the bodies of `execute_task`, `notify_task` and `release_batch`
unfoldable pub consume : Tools → Message → Service (Unit {0})
consume t (execute_task tid) =
    done (run t.coders (result_url t) (upstream_error_detail t.loads t.decode_replace) tid)
consume t (notify_task tid attempt delay) =
    done (deliver t.callbacks t.callback_settings tid attempt)
consume t (release_batch model source) = done (release_model model)

-- one round of `tick`, and whether it raised nothing
abbrev pub round : Service ℕ
round = catch (tick_once >>= λ _. pure 1) (λ _. pure 0)

-- The rounds after the first follow a sleep; an entry is what happens meanwhile.
unfoldable pub more_rounds : List (World → World) → Service ℕ
more_rounds [] = pure 0
more_rounds (others ∷ sleeps) =
    let later = more_rounds sleeps in
    (do (λ w. pure tt (others w)); a ← round; b ← later; pure (a + b))

unfoldable pub tick : List (World → World) → Service ℕ
tick sleeps = do a ← round; b ← more_rounds sleeps; pure (a + b)

pub data Job : Type 0 where
  stale overdue slots results : Job

-- with the lock of the job
unfoldable pub sweep_slots : Service (Unit {0})
sweep_slots = do locked ← lock (codes "slots"); when locked recalibrate_slots

unfoldable pub body_of : Job → Service (Unit {0})
body_of stale = done Sweeper.sweep_stale
body_of overdue = done Sweeper.sweep_overdue
body_of slots = sweep_slots
body_of results = done purge_results

-- The switch is read from the environment, not from the runtime configuration.
unfoldable pub sweep : Tools → Job → Service (Unit {0})
sweep t job = when t.sweep_enabled (body_of job)
