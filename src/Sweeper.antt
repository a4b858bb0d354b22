-- ===== src/Sweeper.antt =====
-- app/services/sweeper.py: the periodic jobs that bring stuck tasks to an end, repair the indexes and
-- the slots, and remove old results; the queries of app/services/taskstore that they read.
pub mod Queries
pub mod Slots
pub mod Growth
pub mod Purge
use stask_service.Prelude.{
  ℕ, suc, ◌+◌, Text, codes, Bool, true, false, not, ltb, ◌==◌, if◌then◌else◌, take, Option, none,
  some, List, [], ◌∷◌,
}
use stask_service.Schemas.{Status, failure, active, is_among}
use stask_service.Rows.{Row, TaskData}
use stask_service.SortedSets.{zscore}
use stask_service.Service
use stask_service.Service.{
  World, Service, put_at, pure, gets, external, catch, quietly, when, ◌>>=◌, ◌>>◌,
}
use stask_service.Store.{now, cas, patch_data}
use stask_service.Gate.{release_for_task, is_blank}
use stask_service.Sessions.{clear, publish_execute, publish_notify}
use stask_service.Dispatch.{Released, no_slot, release, requeue, schedule}
use stask_service.Batching.Ticker.{ceiling_of}
use stask_service.Batching.Rebuild.{rebuild_batch_index}
use Queries.{stale_active, overdue_active, pending_scheduled, purge_expired_results}

-- SET NX; where Redis fails, the job does not run
unfoldable pub lock : Text → Service Bool
lock job =
    catch
      (external (λ w.
        if w.sweep_locks job
        then (false, w)
        else (true, record w { sweep_locks = put_at job true w.sweep_locks })))
      (λ _. pure false)

-- `_gather_bounded`, one item after the other: how many answered True
unfoldable pub gather_bounded {ℓ} : {A : Type ℓ} → (A → Service Bool) → List A → Service ℕ
gather_bounded handler [] = pure 0
gather_bounded handler (item ∷ items) =
    let rest = gather_bounded handler items in
    (do done ← catch (handler item) (λ _. pure false); n ← rest; pure (if done then suc n else n))

unfoldable pub kill : Text → Row → Service Bool
kill reason row =
    if is_among row.status active
    then (do
      won ← cas row.task_id active failure (λ d. d) reason none
      if won
          then (do
            release_for_task row.task_data
            clear row.task_id
            when (not (is_blank row.task_data.callback_url))
                (quietly (publish_notify row.task_id 1 0))
            pure true)
          else pure false)
    else pure false

abbrev is_held : Option ℕ → Bool
is_held none = false
is_held (some e) = true

-- whether a call may be in flight
unfoldable pub lock_alive : Text → Service Bool
lock_alive tid = catch (external (λ w. (is_held (w.locks tid), w))) (λ _. pure true)

with_requeued : ℕ → TaskData → TaskData
with_requeued ts d = record d { requeued_at = ts }

after_release : Text → ℕ → Released → Service Bool
after_release tid ceiling Released.ok = pure true
after_release tid ceiling no_slot = do _ ← requeue tid ceiling; pure false
after_release tid ceiling Released.skipped = pure false

-- what happens to a stale task that no call holds
revive : Row → Service Bool
unfolding with_requeued after_release
revive row =
    if ltb 0 row.task_data.dispatch_epoch
    then (do _ ← kill (codes "stale after dispatch (result unavailable)") row; pure false)
    else if ltb 0 row.task_data.slot_flags
    then (do
      publish_execute row.task_id
      ts ← now
      patch_data row.task_id (with_requeued ts)
      pure true)
    else (do
      ceiling ← gets ceiling_of
      outcome ← release row.task_id none
      after_release row.task_id ceiling outcome)

-- `handle` of `sweep_stale`
unfoldable pub handle : Row → Service Bool
unfolding revive
handle row =
    if is_among row.status active
    then (do alive ← lock_alive row.task_id; if alive then pure false else revive row)
    else pure false

-- one task of `_rearm_due_index`; `none` stands for a probe that failed
rearm_one : Row → Option Bool → Service ℕ → Service ℕ
rearm_one row none rest = pure 0
rearm_one row (some true) rest = rest
rearm_one row (some false) rest = do
  schedule row.task_id row.task_data.scheduled_at
  n ← rest
  pure (suc n)

probe_due : Text → Service (Option Bool)
probe_due tid = catch (external (λ w. (some (is_held (zscore tid w.due)), w))) (λ _. pure none)

unfoldable pub rearm : List Row → Service ℕ
unfolding rearm_one probe_due
rearm [] = pure 0
rearm (row ∷ rows) =
    let rest = rearm rows in (do known ← probe_due row.task_id; rearm_one row known rest)

unfoldable pub rearm_due_index : Service ℕ
rearm_due_index = do rows ← pending_scheduled; rearm rows

-- how many were published again
unfoldable pub sweep_stale : Service ℕ
sweep_stale = do
  locked ← lock (codes "stale")
  if locked
      then (do
        c ← gets (λ w. w.config)
        rows ← stale_active (c.worker_timeout + c.dispatch_lock_margin_seconds + 60)
        n ← gather_bounded handle rows
        _ ← rearm_due_index
        rebuild_batch_index
        pure n)
      else pure 0

unfoldable pub sweep_overdue : Service ℕ
sweep_overdue = do
  locked ← lock (codes "overdue")
  if locked
      then (do
        c ← gets (λ w. w.config)
        rows ← overdue_active c.task_max_lifetime_seconds
        gather_bounded (kill (codes "task exceeded max lifetime")) rows)
      else pure 0

-- The loop stops at the first round that cleans fewer rows than its limit. Every full round leaves
-- fewer rows to clean, so as many rounds as there are rows are enough.
unfoldable pub purge_rounds : List Row → Service ℕ
purge_rounds [] = pure 0
purge_rounds (r ∷ rounds) =
    let rest = purge_rounds rounds in
    (do
      limit ← gets (λ w. w.config.result_purge_batch_limit)
      n ← purge_expired_results
      if ltb n limit then pure n else (do m ← rest; pure (n + m)))

unfoldable pub purge_results : Service ℕ
unfolding purge_rounds
purge_results = do
  locked ← lock (codes "purge")
  rows ← gets (λ w. w.rows)
  if locked then purge_rounds rows else pure 0
