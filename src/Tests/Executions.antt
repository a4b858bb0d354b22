-- ===== src/Tests/Executions.antt =====
-- Executions, cancellations and periodic jobs on concrete worlds.
use stask_service.Prelude.{◌≤◌, Text, codes, length, some, [], ◌∷◌, ◌≡◌, ◌⊎◌, refl}
use stask_service.Prelude.Int.{pos}
use stask_service.Schemas.{canceled}
use stask_service.Rows.{Row}
use stask_service.Slots.{token_slot}
use stask_service.Service.{World}
use stask_service.Execute.{run, run_row}
use stask_service.Execute.Upstream.{call_upstream}
use stask_service.Execute.Redelivery.{run-redelivered}
use stask_service.Execute.Attempts.{call_upstream_bound}
use stask_service.Execute.Overtaken.{run_row-overtaken}
use stask_service.Sweeper.Slots.{recalibrate_slots}
use stask_service.Sweeper.Slots.Repair.{recalibrate_slots-repaired}
use stask_service.Tests.Worlds.{some_config, empty_world, some_world, some_row}
use stask_service.Tests.Bodies.{some_coders}

abbrev gpt_1 : Text
gpt_1 = codes "gpt_1"

abbrev nothing_found : Text → Text
nothing_found raw = []

abbrev no_detail : Text → Text → Text
no_detail raw content_type = []

abbrev after_run : World
after_run = (run some_coders nothing_found no_detail gpt_1 some_world).1

run-redelivered_example :
    (after_run.calls ≡ [])
    ⊎ ((run some_coders nothing_found no_detail gpt_1 after_run).1.calls ≡ after_run.calls)
run-redelivered_example =
    run-redelivered some_coders nothing_found no_detail gpt_1 (λ w. w) some_world (λ v h. h)

call_upstream_bound_example :
    length
      (call_upstream some_coders nothing_found no_detail gpt_1 some_row.task_data 3 2 0
        some_world).1.calls
    ≤ 6
call_upstream_bound_example =
    call_upstream_bound some_coders nothing_found no_detail gpt_1 some_row.task_data 3 2 0
      some_world

-- the row as it was read, and the table in which it was canceled since
abbrev read_row : Row
read_row = record some_row { task_data = record some_row.task_data { request_body = [] } }

abbrev canceled_world : World
canceled_world = record empty_world {
  config = record some_config { retry_max = 0; retry_max_connect = 0 };
  rows = record read_row { status = canceled } ∷ [];
  sessions = λ k. some (codes "sk");
}

run_row-overtaken_example :
    (run_row some_coders nothing_found no_detail gpt_1 read_row canceled_world).1.calls ≡ gpt_1 ∷ []
run_row-overtaken_example =
    run_row-overtaken some_coders nothing_found no_detail gpt_1 (codes "k") b's' read_row
      canceled_world refl refl (refl, refl, refl, refl, refl, refl)

-- a counter of two that no active task holds
abbrev drifted : World
drifted = record empty_world { counters = λ k. pos 2 }

recalibrate_slots-repaired_example :
    (recalibrate_slots drifted).1.counters (token_slot (codes "aa")) ≡ pos 2
recalibrate_slots-repaired_example =
    recalibrate_slots-repaired drifted (token_slot (codes "aa")) refl
