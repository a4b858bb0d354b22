-- ===== src/Dispatch.antt =====
-- app/services/dispatch.py: the only way from waiting to the queue, and the back-off channel.
pub mod Growth
pub mod Silent
pub mod Backoff
pub mod Sending
use stask_service.Prelude.{
  ℕ, suc, ◌+◌, ◌*◌, ◌/◌, ◌%◌, ◌^◌, Text, codes, Bool, true, false, ltb, ◌==◌, if◌then◌else◌, min,
  max, Option, none, some, List, [], ◌∷◌,
}
use stask_service.Schemas.{Status, queued, failure, pending}
use stask_service.Rows.{
  Row, TaskData, BatchState, absent, waiting, scheduled, immediate, releasing, released,
}
use stask_service.SortedSets.{zadd, zrem, range_by_score}
use stask_service.Policy.{ResolvedPolicy, normalize_model}
use stask_service.Policy.Resolve.{resolve_in}
use stask_service.Service.{
  World, Service, Config, pure, gets, external, send_off, quietly, attempt, ◌>>=◌, ◌>>◌,
}
use stask_service.Store.{now, get_meta, cas, patch_data, claim_for_release, unclaim_for_release}
use stask_service.Gate.{acquire_layered, release_layered, is_blank}
use stask_service.Sessions.{publish_execute}

pub data Released : Type 0 where
  ok no_slot skipped : Released

unfoldable pub schedule : Text → ℕ → Service (Unit {0})
schedule tid due_at = send_off (λ w. record w { due = zadd tid due_at w.due })

unfoldable pub unschedule : Text → Service (Unit {0})
unschedule tid = quietly (send_off (λ w. record w { due = zrem tid w.due }))

abbrev pub or_now : Option ℕ → Service ℕ
or_now none = now
or_now (some ts) = pure ts

abbrev pub or_model : Text → Text → Text
or_model slot_model model = if is_blank slot_model then normalize_model model else slot_model

abbrev pub or_waiting : BatchState → BatchState
or_waiting absent = waiting
or_waiting s = s

-- `a or b` on numbers
abbrev pub or_else : ℕ → ℕ → ℕ
or_else a b = if a == 0 then b else a

mark_released : ℕ → Text → ℕ → TaskData → TaskData
mark_released mask model ts d = record d {
  batch_state = released;
  slot_flags = mask;
  slot_model = model;
  released_at = ts;
}

-- step 4: the message
enqueue : Text → Text → Text → ℕ → Service Released
enqueue tid token_hash model mask = do
  published ← attempt (publish_execute tid)
  if published then (do unschedule tid; pure ok) else (do
    release_layered token_hash model mask
    _ ←
        cas tid pending failure (λ d. record d { slot_flags = 0 })
          (codes "enqueue failed after release") none
    pure skipped)

-- step 3: the mask is written to the row
persist : Text → Text → Text → ℕ → BatchState → Service Released
unfolding enqueue mark_released
persist tid token_hash model mask prev_state = do
  stored ← attempt (do ts ← now; patch_data tid (mark_released mask model ts))
  if stored then enqueue tid token_hash model mask else (do
    release_layered token_hash model mask
    unclaim_for_release tid prev_state
    pure no_slot)

-- steps 1 and 2: the claim, then the slots
admit : Text → TaskData → Text → ResolvedPolicy → ℕ → Service Released
unfolding persist
admit tid d model policy max_slots = do
  claimed ← claim_for_release tid
  if claimed
      then (do
        mask ←
            acquire_layered d.token_hash model (or_else policy.limit_per_token max_slots)
              policy.limit_model_token policy.limit_global
        if mask == 0
            then (do unclaim_for_release tid (or_waiting d.batch_state); pure no_slot)
            else persist tid d.token_hash model mask (or_waiting d.batch_state))
      else pure skipped

release_row : Text → Option ℕ → TaskData → Service Released
unfolding admit
release_row tid moment d = do
  ts ← or_now moment
  if ltb ts d.scheduled_at then (do schedule tid d.scheduled_at; pure skipped) else (do
    w ← gets (λ w. w)
    admit tid d (or_model d.slot_model d.model)
        (resolve_in d.model d.request_path w.policies w.config.max_slots) w.config.max_slots)

abbrev release_found : Text → Option ℕ → Option Row → Service Released
release_found tid moment none = pure skipped
release_found tid moment (some r) = release_row tid moment r.task_data

unfoldable pub release : Text → Option ℕ → Service Released
unfolding release_row
release tid moment = do row ← get_meta tid; release_found tid moment row

abbrev attempts_of : Option Row → ℕ
attempts_of none = 0
attempts_of (some r) = r.task_data.requeue_attempts

-- `min(ceiling, 2 ** min(attempts, 12))`
unfoldable pub backoff : ℕ → ℕ → ℕ
backoff ceiling attempts = min ceiling (2 ^ min attempts 12)

-- `max(1, int(delay * (1.0 + random.uniform(-0.1, 0.1))))`, in thousandths
unfoldable pub jittered : ℕ → ℕ → ℕ
jittered draw delay = max 1 (delay * (900 + draw % 201) / 1000)

next_draw : List ℕ → ℕ × List ℕ
next_draw [] = (100, [])
next_draw (n ∷ ns) = (n, ns)

unfoldable pub random : Service ℕ
unfolding next_draw
random w = let r = next_draw w.draws in pure r.0 (record w { draws = r.1 })

mark_requeued : ℕ → ℕ → TaskData → TaskData
mark_requeued attempts due_at d = record d { requeue_attempts = attempts; requeue_due_at = due_at }

unfoldable pub requeue : Text → ℕ → Service ℕ
unfolding mark_requeued
requeue tid backoff_ceiling = do
  row ← get_meta tid
  let attempts = attempts_of row + 1
  draw ← random
  ts ← now
  let due_at = ts + jittered draw (backoff backoff_ceiling attempts)
  patch_data tid (mark_requeued attempts due_at)
  schedule tid due_at
  pure due_at

unfoldable pub due : ℕ → Service (List Text)
due moment = external (λ w. (range_by_score moment 500 w.due, w))
