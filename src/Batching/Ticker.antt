-- ===== src/Batching/Ticker.antt =====
-- app/services/batching.py: the release of a whole batch, the admission of a task that is due, and
-- the ticker. Members of a batch, which run concurrently there, are released here one after the
-- other.
pub mod Growth
use stask_service.Prelude.{
  ℕ, suc, ◌+◌, max, Text, Bool, true, false, ltb, leb, ◌==◌, if◌then◌else◌, Option, none, some,
  List, [], ◌∷◌,
}
use stask_service.Schemas.{Status, queued, status_eq}
use stask_service.Rows.{Row, TaskData, BatchState, waiting}
use stask_service.Policy.{ResolvedPolicy, normalize_model}
use stask_service.Policy.Resolve.{resolve_in}
use stask_service.Service
use stask_service.Service.{World, Service, Result, raised, pure, raise, gets, catch, ◌>>=◌, ◌>>◌}
use stask_service.Store.{now, get_meta, patch_data}
use stask_service.Gate.{is_blank}
use stask_service.Dispatch.{
  Released, no_slot, skipped, release, requeue, schedule, unschedule, due, or_model,
}
use stask_service.Batching.Params.{group_key}
use stask_service.Batching.Membership.{claim, due_keys}
use stask_service.Submit.Joining.{join_batch}

pub record Tally : Type 0 where
  pub batches : ℕ
  pub released : ℕ
  pub requeued : ℕ
  pub skipped : ℕ
  pub batched : ℕ

abbrev pub zero_tally : Tally
zero_tally = record { batches = 0; released = 0; requeued = 0; skipped = 0; batched = 0 }

abbrev one_released : Tally
one_released = record zero_tally { released = 1 }

abbrev one_requeued : Tally
one_requeued = record zero_tally { requeued = 1 }

abbrev one_skipped : Tally
one_skipped = record zero_tally { skipped = 1 }

abbrev one_batched : Tally
one_batched = record zero_tally { batched = 1 }

abbrev plus : Tally → Tally → Tally
plus a b = record {
  batches = a.batches + b.batches;
  released = a.released + b.released;
  requeued = a.requeued + b.requeued;
  skipped = a.skipped + b.skipped;
  batched = a.batched + b.batched;
}

abbrev pub ceiling_of : World → ℕ
ceiling_of w = max 10 w.config.batch_backoff_max_seconds

put_off : Text → ℕ → Service Tally
put_off tid ceiling = do _ ← requeue tid ceiling; pure one_requeued

-- what follows the release of one member; `none` stands for an exception
after_release : Text → ℕ → Option Released → Service Tally
unfolding put_off
after_release tid ceiling none = put_off tid ceiling
after_release tid ceiling (some Released.ok) = pure one_released
after_release tid ceiling (some no_slot) = put_off tid ceiling
after_release tid ceiling (some Released.skipped) = pure one_skipped

unfoldable pub one : ℕ → Text → Service Tally
unfolding after_release
one ceiling tid = do
  outcome ← catch (do r ← release tid none; pure (some r)) (λ _. pure none)
  after_release tid ceiling outcome

-- asyncio.gather: all members run, and an exception of one is raised at the end
settled : Service Tally → Service (Result Tally)
settled m w = let (r, v) = m w in pure r v

combine : Result Tally → Result Tally → Service Tally
combine (Service.ok a) (Service.ok b) = pure (plus a b)
combine (Service.ok a) (raised e) = raise e
combine (raised e) b = raise e

unfoldable pub gather : ℕ → List Text → Service Tally
unfolding settled combine
gather ceiling [] = pure zero_tally
gather ceiling (tid ∷ tids) =
    let others = gather ceiling tids in
    (do a ← settled (one ceiling tid); b ← settled others; combine a b)

unfoldable pub release_model : Text → Service Tally
release_model key = do tids ← claim key; ceiling ← gets ceiling_of; gather ceiling tids

-- what `admit_due` answers
pub data Admitted : Type 0 where
  released batched requeued passed : Admitted

abbrev of_released : Released → Admitted
of_released Released.ok = released
of_released no_slot = requeued
of_released Released.skipped = passed

with_key : Text → TaskData → TaskData
with_key key d = record d { batch_state = waiting; batch_key = key }

-- the key of the batch that a delayed task joins
due_key : World → TaskData → Text
due_key w d =
    if is_blank d.batch_key
    then group_key [] (or_model d.slot_model d.model) d.token_hash w.config.group_by_token_model
    else d.batch_key

admit_row : Text → ℕ → TaskData → Service Admitted
unfolding with_key due_key
admit_row tid moment d =
    if ltb moment d.scheduled_at then (do schedule tid d.scheduled_at; pure passed) else (do
      w ← gets (λ w. w)
      let policy = resolve_in d.model d.request_path w.policies w.config.max_slots
      let direct = release tid (some moment) >>= λ r. pure (of_released r)
      if w.config.batch_enabled
          then (if leb 2 policy.batch
              then (do
                patch_data tid (with_key (due_key w d))
                _ ← join_batch tid (due_key w d) policy
                pure batched)
              else direct)
          else direct)

admit_found : Text → ℕ → Option Row → Service Admitted
unfolding admit_row
admit_found tid moment none = pure passed
admit_found tid moment (some r) =
    if status_eq r.status queued then admit_row tid moment r.task_data else pure passed

unfoldable pub admit_due : Text → ℕ → Service Admitted
unfolding admit_found
admit_due tid moment = do row ← get_meta tid; admit_found tid moment row

after_admission : Text → ℕ → Option Admitted → Service Tally
unfolding put_off
after_admission tid ceiling none = put_off tid ceiling
after_admission tid ceiling (some released) = pure one_released
after_admission tid ceiling (some batched) = pure one_batched
after_admission tid ceiling (some requeued) = put_off tid ceiling
after_admission tid ceiling (some passed) = pure one_skipped

-- the first loop of `tick_once`: the batches that are due
release_all : List Text → Service Tally
release_all [] = pure zero_tally
release_all (key ∷ keys) =
    let rest = release_all keys in
    (do a ← release_model key; b ← rest; pure (plus (record a { batches = 1 }) b))

-- the second loop: the tasks that are due
admit_all : ℕ → ℕ → List Text → Service Tally
unfolding after_admission
admit_all moment ceiling [] = pure zero_tally
admit_all moment ceiling (tid ∷ tids) =
    let rest = admit_all moment ceiling tids in
    (do
      unschedule tid
      result ← catch (do r ← admit_due tid moment; pure (some r)) (λ _. pure none)
      a ← after_admission tid ceiling result
      b ← rest
      pure (plus a b))

unfoldable pub tick_once : Service Tally
unfolding release_all admit_all
tick_once = do
  w ← gets (λ w. w)
  keys ← (if w.config.batch_enabled then due_keys w.clock else pure [])
  a ← release_all keys
  tids ← due w.clock
  b ← admit_all w.clock (ceiling_of w) tids
  pure (plus a b)
