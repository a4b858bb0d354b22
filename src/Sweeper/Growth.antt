-- ===== src/Sweeper/Growth.antt =====
-- The periodic jobs move rows along the state machine only, however their calls end.
use stask_service.Prelude.{
  ℕ, zero, suc, Text, Bool, true, false, Option, none, some, List, [], ◌∷◌, refl, arith, Bool-cases,
  inl, inr,
}
use stask_service.Schemas.{failure, active}
use stask_service.Schemas.Lifecycle.{may_become_refl}
use stask_service.Rows.{Row}
use stask_service.Service.{World, Service}
use stask_service.Service.Keeps.{
  Keeps, Keeps-pure, Keeps-catch, Keeps-if, Keeps-gets, Keeps-bind, Keeps-external, keeps_rules,
}
use stask_service.Store.Growth.{
  Follows, Follows-refl, Grows, Grows-refl, Grows-trans, GrownFrom, Moves, active-Moves,
  external-Grown, grown_rules,
}
use stask_service.Gate.Growth.{gate_rules}
use stask_service.Sessions.Growth.{session_rules}
use stask_service.Dispatch.{Released, no_slot}
use stask_service.Dispatch.Growth.{dispatch_rules}
use stask_service.Batching.Rebuild.{rebuild_batch_index-Grown}
use stask_service.Sweeper.{
  lock, gather_bounded, kill, lock_alive, after_release, revive, handle, rearm_one, probe_due,
  rearm, rearm_due_index, sweep_stale, sweep_overdue, purge_rounds, purge_results,
}
use stask_service.Sweeper.Queries.{
  stale_active, overdue_active, pending_scheduled, purge_rows, emptied, purge_expired_results,
}

active_failure : Moves active failure
active_failure = active-Moves failure refl refl

emptied-Follows : (r : Row) → Follows r (emptied r)
emptied-Follows r = record {
  same_id = refl;
  same_birth = refl;
  same_owner = refl;
  legal = may_become_refl r.status;
  ended = λ _. refl;
}

purge_rows-Grows :
    (test : Row → Bool) (limit : ℕ) (rs : List Row) → Grows rs (purge_rows test limit rs).1
unfolding purge_rows
purge_rows-Grows test limit [] = tt
purge_rows-Grows test zero (r ∷ rs) = (Follows-refl r, Grows-refl rs)
purge_rows-Grows test (suc limit) (r ∷ rs) = elim (Bool-cases (test r)) [
  | inl e ↦ rw e (emptied-Follows r, purge_rows-Grows test limit rs)
  | inr e ↦ rw e (Follows-refl r, purge_rows-Grows test (suc limit) rs)
]

module _ (rs : List Row) where
  pub lock-Grown : (job : Text) → Keeps (GrownFrom rs) (lock job)
  unfolding lock
  lock-Grown job = Keeps-catch _ _ (external-Grown rs _ (λ v. ground arith)) (λ e. Keeps-pure false)

  lock_alive-Grown : (tid : Text) → Keeps (GrownFrom rs) (lock_alive tid)
  unfolding lock_alive
  lock_alive-Grown tid = Keeps-catch _ _ (external-Grown rs _ (λ v. refl)) (λ e. Keeps-pure true)

  probe_due-Grown : (tid : Text) → Keeps (GrownFrom rs) (probe_due tid)
  unfolding probe_due
  probe_due-Grown tid = Keeps-catch _ _ (external-Grown rs _ (λ v. refl)) (λ e. Keeps-pure none)

  stale_active-Grown : (n : ℕ) → Keeps (GrownFrom rs) (stale_active n)
  unfolding stale_active
  stale_active-Grown n = Keeps-bind _ _ (Keeps-gets _) (λ ts. external-Grown rs _ (λ v. refl))

  overdue_active-Grown : (n : ℕ) → Keeps (GrownFrom rs) (overdue_active n)
  unfolding overdue_active
  overdue_active-Grown n = Keeps-bind _ _ (Keeps-gets _) (λ ts. external-Grown rs _ (λ v. refl))

  pending_scheduled-Grown : Keeps (GrownFrom rs) pending_scheduled
  unfolding pending_scheduled
  pending_scheduled-Grown = Keeps-bind _ _ (Keeps-gets _) (λ ts. external-Grown rs _ (λ v. refl))

  purge_expired_results-Grown : Keeps (GrownFrom rs) purge_expired_results
  unfolding purge_expired_results
  purge_expired_results-Grown = Keeps-bind _ _ (Keeps-gets _) λ ts.
      Keeps-external (λ w s h. h) _ (λ w h. Grows-trans rs w.rows _ h (purge_rows-Grows _ _ w.rows))

  gather_bounded-Grown {ℓ} :
      {A : Type ℓ} (f : A → Service Bool) (items : List A)
      → ((a : A) → Keeps (GrownFrom rs) (f a))
      → Keeps (GrownFrom rs) (gather_bounded f items)
  unfolding gather_bounded
  gather_bounded-Grown f [] k = Keeps-pure 0
  gather_bounded-Grown f (a ∷ items) k =
      Keeps-bind _ _ (Keeps-catch _ _ (k a) (λ e. Keeps-pure false))
        λ done. Keeps-bind _ _ (gather_bounded-Grown f items k) (λ n. Keeps-pure _)

ruleset parts = (
  keeps_rules, grown_rules, gate_rules, session_rules, dispatch_rules, active_failure, lock-Grown,
  lock_alive-Grown, probe_due-Grown, stale_active-Grown, overdue_active-Grown,
  pending_scheduled-Grown, purge_expired_results-Grown, gather_bounded-Grown,
)

module _ (rs : List Row) where
  kill-Grown : (reason : Text) (row : Row) → Keeps (GrownFrom rs) (kill reason row)
  unfolding kill
  kill-Grown reason row = search parts depth 14

  after_release-Grown :
      (tid : Text) (n : ℕ) (r : Released) → Keeps (GrownFrom rs) (after_release tid n r)
  unfolding after_release
  after_release-Grown tid n Released.ok = Keeps-pure true
  after_release-Grown tid n no_slot = search parts depth 12
  after_release-Grown tid n Released.skipped = Keeps-pure false

  revive-Grown : (row : Row) → Keeps (GrownFrom rs) (revive row)
  unfolding revive
  revive-Grown row = search (parts, kill-Grown, after_release-Grown) depth 12

  handle-Grown : (row : Row) → Keeps (GrownFrom rs) (handle row)
  unfolding handle
  handle-Grown row = search (parts, revive-Grown) depth 12

  rearm_one-Grown :
      (row : Row) (o : Option Bool) (m : Service ℕ)
      → Keeps (GrownFrom rs) m
      → Keeps (GrownFrom rs) (rearm_one row o m)
  unfolding rearm_one
  rearm_one-Grown row none m k = Keeps-pure 0
  rearm_one-Grown row (some true) m k = k
  rearm_one-Grown row (some false) m k = search parts depth 12

  rearm-Grown : (rows : List Row) → Keeps (GrownFrom rs) (rearm rows)
  unfolding rearm
  rearm-Grown [] = Keeps-pure 0
  rearm-Grown (row ∷ rows) =
      Keeps-bind _ _ (probe_due-Grown rs row.task_id)
        λ known. rearm_one-Grown row known _ (rearm-Grown rows)

  rearm_due_index-Grown : Keeps (GrownFrom rs) rearm_due_index
  unfolding rearm_due_index
  rearm_due_index-Grown = search (parts, rearm-Grown) depth 12

  pub sweep_stale-Grown : Keeps (GrownFrom rs) sweep_stale
  unfolding sweep_stale
  sweep_stale-Grown =
      search (parts, handle-Grown, rearm_due_index-Grown, rebuild_batch_index-Grown) depth 14

  pub sweep_overdue-Grown : Keeps (GrownFrom rs) sweep_overdue
  unfolding sweep_overdue
  sweep_overdue-Grown = search (parts, kill-Grown) depth 12

  purge_rounds-Grown : (rounds : List Row) → Keeps (GrownFrom rs) (purge_rounds rounds)
  unfolding purge_rounds
  purge_rounds-Grown [] = Keeps-pure 0
  purge_rounds-Grown (r ∷ rounds) = Keeps-bind _ _ (Keeps-gets _) λ limit.
      Keeps-bind _ _ (purge_expired_results-Grown rs) λ n.
        Keeps-if _ _ _ (Keeps-pure n)
          (Keeps-bind _ _ (purge_rounds-Grown rounds) (λ m. Keeps-pure _))

  pub purge_results-Grown : Keeps (GrownFrom rs) purge_results
  unfolding purge_results
  purge_results-Grown = search (parts, purge_rounds-Grown) depth 12

-- However their calls end, the three jobs that write the table lose no row and move rows along the
-- state machine only.
sweeps-Grows :
    (w : World)
    → Grows w.rows (sweep_stale w).1.rows
      × Grows w.rows (sweep_overdue w).1.rows
      × Grows w.rows (purge_results w).1.rows
sweeps-Grows w = (
  (sweep_stale-Grown w.rows).at w (Grows-refl w.rows),
  (sweep_overdue-Grown w.rows).at w (Grows-refl w.rows),
  (purge_results-Grown w.rows).at w (Grows-refl w.rows),
)
