-- ===== src/Workers/Growth.antt =====
-- Whatever a worker does, rows move along the state machine only.
use stask_service.Prelude.{List, [], ◌∷◌}
use stask_service.Rows.{Row}
use stask_service.Service.{World, Service, Message, execute_task, notify_task, release_batch, pure}
use stask_service.Service.Keeps.{Keeps, Keeps-pure, Keeps-bind, Keeps-catch}
use stask_service.Store.Growth.{GrownFrom, OthersKeep, when-Grown}
use stask_service.Execute.Growth.{run-Grown}
use stask_service.Notify.Growth.{deliver-Grown}
use stask_service.Batching.Ticker.Growth.{tick_once-Grown, release_model-Grown}
use stask_service.Sweeper.Growth.{
  sweep_stale-Grown, sweep_overdue-Grown, purge_results-Grown, lock-Grown,
}
use stask_service.Sweeper.Slots.Growth.{recalibrate_slots-Grown}
use stask_service.Outcome.{upstream_error_detail}
use stask_service.Workers.{
  Tools, result_url, consume, done, round, more_rounds, tick, Job, stale, overdue, slots, results,
  sweep_slots, body_of, sweep,
}

module _ (rs : List Row) where
  done-Grown {ℓ} :
      {A : Type ℓ} (m : Service A) → Keeps (GrownFrom rs) m → Keeps (GrownFrom rs) (done m)
  done-Grown m k = Keeps-bind _ _ k (λ a. Keeps-pure tt)

  pub consume-Grown : (t : Tools) (m : Message) → Keeps (GrownFrom rs) (consume t m)
  unfolding consume
  consume-Grown t (execute_task tid) =
      done-Grown _
        (run-Grown rs t.coders (result_url t) (upstream_error_detail t.loads t.decode_replace) tid)
  consume-Grown t (notify_task tid attempt delay) =
      done-Grown _ (deliver-Grown rs t.callbacks t.callback_settings tid attempt)
  consume-Grown t (release_batch model source) = done-Grown _ (release_model-Grown rs model)

  round-Grown : Keeps (GrownFrom rs) round
  round-Grown =
      Keeps-catch _ _ (Keeps-bind _ _ (tick_once-Grown rs) (λ a. Keeps-pure 1)) (λ e. Keeps-pure 0)

  more_rounds-Grown :
      (sleeps : List (World → World))
      → OthersKeep rs sleeps
      → Keeps (GrownFrom rs) (more_rounds sleeps)
  unfolding more_rounds pure
  more_rounds-Grown [] h = Keeps-pure 0
  more_rounds-Grown (others ∷ sleeps) h =
      Keeps-bind _ _ (record { at = λ w g. h.0 w g })
        λ x.
          Keeps-bind _ _ round-Grown
            λ a. Keeps-bind _ _ (more_rounds-Grown sleeps h.1) (λ b. Keeps-pure _)

  pub tick-Grown :
      (sleeps : List (World → World)) → OthersKeep rs sleeps → Keeps (GrownFrom rs) (tick sleeps)
  unfolding tick
  tick-Grown sleeps h =
      Keeps-bind _ _ round-Grown
        λ a. Keeps-bind _ _ (more_rounds-Grown sleeps h) (λ b. Keeps-pure _)

  sweep_slots-Grown : Keeps (GrownFrom rs) sweep_slots
  unfolding sweep_slots
  sweep_slots-Grown =
      Keeps-bind _ _ (lock-Grown rs _) λ locked. when-Grown rs locked _ (recalibrate_slots-Grown rs)

  pub body_of-Grown : (job : Job) → Keeps (GrownFrom rs) (body_of job)
  unfolding body_of
  body_of-Grown stale = done-Grown _ (sweep_stale-Grown rs)
  body_of-Grown overdue = done-Grown _ (sweep_overdue-Grown rs)
  body_of-Grown slots = sweep_slots-Grown
  body_of-Grown results = done-Grown _ (purge_results-Grown rs)

  pub sweep-Grown : (t : Tools) (job : Job) → Keeps (GrownFrom rs) (sweep t job)
  unfolding sweep
  sweep-Grown t job = when-Grown rs t.sweep_enabled _ (body_of-Grown job)
