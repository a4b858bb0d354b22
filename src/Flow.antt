-- ===== src/Flow.antt =====
-- app/services/flow.py: cancelling a task, and what a query answers. A response is its code, the
-- public status of the task and its content; the other headers are left out.
pub mod Replay
pub mod Growth
use stask_service.Prelude.{
  ℕ, suc, Text, codes, Bool, true, false, ltb, ◌==◌, if◌then◌else◌, Option, none, some, List, [],
  ◌∷◌,
}
use stask_service.Schemas.{
  Status, queued, in_progress, canceled, pending, active, terminal, is_among,
}
use stask_service.Rows.{Row, TaskData, BatchState, waiting}
use stask_service.Service.{
  World, Service, Exn, http, pure, raise, external, catch, when, ◌>>=◌, ◌>>◌,
}
use stask_service.Store.{get, get_meta, get_status, cas, cache_status, cached_status, is_running}
use stask_service.Gate.{release_for_task, is_blank}
use stask_service.Sessions.{clear}
use stask_service.Dispatch.{unschedule}
use stask_service.Batching.Membership.{leave}
use stask_service.Codec.{Coders}
use Replay.{Response, replay, accepted}

abbrev is_waiting : BatchState → Bool
is_waiting waiting = true
is_waiting _ = false

-- how a canceled task leaves the place where it waited
leave_place : Text → TaskData → Service (Unit {0})
leave_place tid d =
    if ltb 0 d.scheduled_at
    then unschedule tid
    else when (is_waiting d.batch_state)
        (leave tid (if is_blank d.batch_key then d.slot_model else d.batch_key))

-- after the row was read
unfoldable pub cancel_row : Text → Row → Service ℕ
unfolding leave_place
cancel_row tid row =
    if is_among row.status terminal
    then raise (http 409)
    else if is_running row.status
    then raise (http 409)
    else (do
      won ← cas tid pending canceled (λ d. d) (codes "canceled by client") none
      if won
          then (do
            release_for_task row.task_data
            leave_place tid row.task_data
            clear tid
            pure 200)
          else (do _ ← get_meta tid; raise (http 409)))

cancel_found : Text → Option Row → Service ℕ
cancel_found tid none = raise (http 404)
cancel_found tid (some row) = cancel_row tid row

-- the code of the answer
unfoldable pub cancel : Text → Service ℕ
unfolding cancel_found
cancel tid = do row ← get_meta tid; cancel_found tid row

-- the cache first, then the table, which is written back
unfoldable pub probe_status : Text → Service (Option Status)
probe_status tid = do
  cached ← cached_status tid
  elim cached [
    | some s ↦ pure (some s)
    | none ↦ (do
      found ← get_status tid
      elim found [ some s ↦ (do cache_status tid s; pure (some s)) | none ↦ pure none ])
  ]

abbrev sleep : (World → World) → Service (Unit {0})
sleep others w = pure tt (others w)

-- One entry of the list for each sleep before the time is up: what the others do meanwhile.
unfoldable pub long_poll : List (World → World) → Text → Service (Option Row)
long_poll [] tid = pure none
long_poll (others ∷ rounds) tid =
    let again = long_poll rounds tid in
    (do
      sleep others
      status ← probe_status tid
      elim status [ none ↦ pure none | some s ↦ if is_among s active then again else get tid ])

module _ (coders : Coders) (set_status : Text → Text → Option Text) where
  not_yet : Option Row → Service Response
  not_yet none = raise (http 404)
  not_yet (some row) = pure (accepted row)

  waited : Text → Option Row → Service Response
  unfolding not_yet
  waited tid none = do row ← get_meta tid; not_yet row
  waited tid (some row) =
      if is_among row.status terminal
      then pure (replay coders set_status row)
      else (do meta ← get_meta tid; not_yet meta)

  ended : Option Row → Service Response
  ended none = raise (http 404)
  ended (some row) = pure (replay coders set_status row)

  probed : List (World → World) → Text → Option Status → Service Response
  unfolding waited ended
  probed rounds tid none = raise (http 404)
  probed rounds tid (some s) =
      if is_among s terminal
      then (do row ← get tid; ended row)
      else (do polled ← long_poll rounds tid; waited tid polled)

  -- without a wait the list is empty
  unfoldable pub view : List (World → World) → Text → Service Response
  unfolding probed
  view rounds tid = do status ← probe_status tid; probed rounds tid status
