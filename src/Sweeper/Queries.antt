-- ===== src/Sweeper/Queries.antt =====
-- app/services/taskstore/_sweeper.py and _batch.py: the rows that the periodic jobs look for.
use stask_service.Prelude.{
  ℕ, zero, suc, ◌+◌, Bool, true, false, not, ltb, leb, ◌&&◌, if◌then◌else◌, take, List, [], ◌∷◌,
  map,
}
use stask_service.Schemas.{queued, status_eq, active, is_among}
use stask_service.Rows.{Row, BatchState, scheduled}
use stask_service.Gate.{is_blank}
use stask_service.Service.{World, Service, external, ◌>>=◌}
use stask_service.Store.{now, meta}

-- SELECT … WHERE test LIMIT limit
unfoldable pub select_where : (Row → Bool) → List Row → List Row
select_where test [] = []
select_where test (r ∷ rs) = let rest = select_where test rs in if test r then r ∷ rest else rest

abbrev pub select : (ℕ → World → Row → Bool) → (World → ℕ) → Service (List Row)
select test limit = do
  ts ← now
  external (λ w. (map meta (take (limit w) (select_where (test ts w) w.rows)), w))

-- with SQL_SCHEDULED_NOT_FUTURE
abbrev pub is_stale : ℕ → ℕ → World → Row → Bool
is_stale seconds ts w r =
    is_among r.status active
    && (ltb (r.updated_at + seconds) ts && leb (r.task_data.scheduled_at + seconds) ts)

unfoldable pub stale_active : ℕ → Service (List Row)
stale_active seconds = select (is_stale seconds) (λ w. w.config.sweep_batch_limit)

-- with SQL_SCHEDULED_DUE_BEFORE
abbrev pub is_overdue : ℕ → ℕ → World → Row → Bool
is_overdue seconds ts w r =
    is_among r.status active
    && (ltb (r.created_at + seconds) ts && ltb (r.task_data.scheduled_at + seconds) ts)

unfoldable pub overdue_active : ℕ → Service (List Row)
overdue_active seconds = select (is_overdue seconds) (λ w. w.config.sweep_batch_limit)

abbrev is_scheduled : BatchState → Bool
is_scheduled scheduled = true
is_scheduled _ = false

abbrev pub is_pending : ℕ → World → Row → Bool
is_pending ts w r =
    status_eq r.status queued
    && (is_scheduled r.task_data.batch_state && ltb ts r.task_data.scheduled_at)

unfoldable pub pending_scheduled : Service (List Row)
pending_scheduled = select is_pending (λ w. 500)

abbrev pub is_expired : ℕ → ℕ → Row → Bool
is_expired seconds ts r =
    not r.task_data.result_purged
    && (not (is_blank r.task_data.upstream_response)
        && (ltb 0 r.finish_time && leb (r.finish_time + seconds) ts))

abbrev pub emptied : Row → Row
emptied r = record r {
  task_data = record r.task_data {
    upstream_response = [];
    upstream_response_encoding = [];
    result_purged = true;
  };
}

-- UPDATE … WHERE test LIMIT limit: the new rows and how many were touched
unfoldable pub purge_rows : (Row → Bool) → ℕ → List Row → ℕ × List Row
purge_rows test limit [] = (0, [])
purge_rows test zero (r ∷ rs) = (0, r ∷ rs)
purge_rows test (suc limit) (r ∷ rs) =
    let hit = purge_rows test limit rs in
    let miss = purge_rows test (suc limit) rs in
    if test r then (suc hit.0, emptied r ∷ hit.1) else (miss.0, r ∷ miss.1)

unfoldable pub purge_expired_results : Service ℕ
purge_expired_results = do
  ts ← now
  external (λ w.
      let (n, rows) =
        purge_rows (is_expired w.config.result_ttl_seconds ts) w.config.result_purge_batch_limit
          w.rows in
      (n, record w { rows = rows }))
