-- ===== src/System/Refinement.antt =====
-- Whatever happens to the service, each task lives a life of the abstract machine.
use stask_service.Prelude.{
  Text, true, false, Option, none, some, List, [], ◌∷◌, ◌≡◌, arith, All, Bool-cases, inl, inr,
}
use stask_service.Rows.{Row}
use stask_service.Service.{World}
use stask_service.Store.{first_where, has_id}
use stask_service.Store.Growth.{Follows, Born, Grows, Grows-refl, GrownFrom, OthersKeep}
use stask_service.Dispatch.Growth.{release-Grown}
use stask_service.Workers.Growth.{consume-Grown, tick-Grown, sweep-Grown}
use stask_service.Routes.Submitting.Growth.{submit_task-Grown}
use stask_service.Routes.Asking.Growth.{get_task-Grown, cancel_task-Grown}
use stask_service.Routes.Ops.Growth.{run_sweep_stale-Grown, recalibrate-Grown}
use stask_service.Routes.Admin.Growth.{
  requeue-Grown, write_config-Grown, reset_config-Grown, run_job-Grown,
}
use stask_service.System.Lifecycle.{waiting, Life, phase_of, Follows-Life, Born-Life}
use stask_service.System.{
  Deployment, Event, submits, asks, cancels, requeues, configures, resets, runs_job,
  runs_sweep_stale, recalibrates, consumes, ticks, sweeps, releases, elsewhere, Events, done, next,
  Rounds, awake, asleep, perform, perform_all, others_of,
}

module _ (rs : List Row) (d : Deployment) where
  mutual
    unfolding perform perform_all others_of

    perform-Grown : (e : Event) (w : World) → GrownFrom rs w → GrownFrom rs (perform d e w)
    perform-Grown (submits rounds draws q) w g =
        (submit_task-Grown rs d.routes d.settings (others_of d rounds) draws q
            (others_of-Grown rounds)).at
          w g
    perform-Grown (asks rounds q) w g =
        (get_task-Grown rs d.routes (others_of d rounds) q (others_of-Grown rounds)).at w g
    perform-Grown (cancels q) w g = (cancel_task-Grown rs q).at w g
    perform-Grown (requeues headers tid) w g = (requeue-Grown rs d.admin_key headers tid).at w g
    perform-Grown (configures headers merge updates c) w g =
        (write_config-Grown rs d.admin_key headers d.dynconf merge updates c).at w g
    perform-Grown (resets headers keys c) w g =
        (reset_config-Grown rs d.admin_key headers d.dynconf keys c).at w g
    perform-Grown (runs_job headers name) w g = (run_job-Grown rs d.admin_key headers name).at w g
    perform-Grown (runs_sweep_stale headers) w g =
        (run_sweep_stale-Grown d.routes.sha256_hex headers rs).at w g
    perform-Grown (recalibrates headers) w g =
        (recalibrate-Grown d.routes.sha256_hex headers rs).at w g
    perform-Grown (consumes m) w g = (consume-Grown rs d.tools m).at w g
    perform-Grown (ticks rounds) w g =
        (tick-Grown rs (others_of d rounds) (others_of-Grown rounds)).at w g
    perform-Grown (sweeps job) w g = (sweep-Grown rs d.tools job).at w g
    perform-Grown (releases tid moment) w g = (release-Grown rs tid moment).at w g
    perform-Grown (elsewhere v) w g = g

    perform_all-Grown :
        (es : Events) (w : World) → GrownFrom rs w → GrownFrom rs (perform_all d es w)
    perform_all-Grown done w g = g
    perform_all-Grown (next e es) w g = perform_all-Grown es (perform d e w) (perform-Grown e w g)

    others_of-Grown : (rounds : Rounds) → OthersKeep rs (others_of d rounds)
    others_of-Grown awake = tt
    others_of-Grown (asleep es rounds) = ((λ w g. perform_all-Grown es w g), others_of-Grown rounds)

-- What becomes of a task, between two looks at the table: a row that was there lives on, and its
-- birth and its owner stay; a row that was not there began its life as a task that waits.
abbrev pub Lives : Option Row → Option Row → Type 0
Lives none none = Unit
Lives none (some s) = Life waiting (phase_of s)
Lives (some r) none = ⊥
Lives (some r) (some s) =
    Life (phase_of r) (phase_of s) × (s.created_at ≡ r.created_at) × (s.user_id ≡ r.user_id)

Follows-Lives : {r s : Row} → Follows r s → Lives (some r) (some s)
Follows-Lives f = (Follows-Life f, f.same_birth, f.same_owner)

Born-Lives : (tid : Text) (ss : List Row) → All Born ss → Lives none (first_where (has_id tid) ss)
unfolding first_where
Born-Lives tid [] b = tt
Born-Lives tid (s ∷ ss) b = elim (Bool-cases (has_id tid s)) [
  | inl e ↦ rw e (Born-Life s b.0)
  | inr e ↦ rw e (Born-Lives tid ss b.1)
]

Grows-Lives :
    (tid : Text) (rs ss : List Row)
    → Grows rs ss
    → Lives (first_where (has_id tid) rs) (first_where (has_id tid) ss)
unfolding first_where
Grows-Lives tid [] ss g = Born-Lives tid ss g
Grows-Lives tid (x ∷ rs) [] g = elim g [ ]
Grows-Lives tid (x ∷ rs) (y ∷ ss) g = elim (Bool-cases (has_id tid x)) [
  | inl e ↦
      let f : has_id tid y ≡ true = ground (arith, g.0.same_id, e) in rw (e, f) (Follows-Lives g.0)
  | inr e ↦
      let f : has_id tid y ≡ false = ground (arith, g.0.same_id, e) in
      rw (e, f) (Grows-Lives tid rs ss g.1)
]

-- Whatever sequence of requests, queue messages, periodic jobs, releases and changes of settings
-- the service goes through, with others in between where one sleeps, however their calls end, and
-- even if all the world but the table changes meanwhile: a task that is in the table stays there
-- with its birth and its owner, and lives a life of the abstract machine, in which an end is never
-- left and its time stays; a task that comes into the table began such a life as one that waits.
pub perform_all-Lives :
    (d : Deployment) (es : Events) (w : World) (tid : Text)
    → Lives (first_where (has_id tid) w.rows) (first_where (has_id tid) (perform_all d es w).rows)
perform_all-Lives d es w tid =
    Grows-Lives tid w.rows (perform_all d es w).rows
      (perform_all-Grown w.rows d es w (Grows-refl w.rows))
