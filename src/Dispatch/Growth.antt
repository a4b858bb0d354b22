-- ===== src/Dispatch/Growth.antt =====
-- However its calls end, a release, a rescheduling or a back-off lets the rows of the table only
-- follow the state machine.
use stask_service.Prelude.{ℕ, Text, Option, none, some, List, refl}
use stask_service.Schemas.{failure, pending}
use stask_service.Rows.{Row, TaskData, BatchState}
use stask_service.Policy.{ResolvedPolicy}
use stask_service.Service.{World, pure}
use stask_service.Service.Keeps.{Keeps, Keeps-pure, Keeps-catch, Keeps-gets, keeps_rules}
use stask_service.Store.Growth.{
  Grows, Grows-refl, GrownFrom, Moves, pending-Moves, external-Grown, grown_rules,
}
use stask_service.Gate.Growth.{gate_rules}
use stask_service.Sessions.Growth.{session_rules}
use stask_service.Dispatch.{
  schedule, unschedule, or_now, enqueue, persist, admit, release_row, release_found, release,
  random, requeue, due,
}

pending_failure : Moves pending failure
pending_failure = pending-Moves failure refl

module _ (rs : List Row) where
  pub schedule-Grown : (tid : Text) (due_at : ℕ) → Keeps (GrownFrom rs) (schedule tid due_at)
  unfolding schedule
  schedule-Grown tid due_at = external-Grown rs _ (λ v. refl)

  pub unschedule-Grown : (tid : Text) → Keeps (GrownFrom rs) (unschedule tid)
  unfolding unschedule
  unschedule-Grown tid = Keeps-catch _ _ (external-Grown rs _ (λ v. refl)) (λ e. Keeps-pure tt)

  or_now-Grown : (moment : Option ℕ) → Keeps (GrownFrom rs) (or_now moment)
  or_now-Grown none = Keeps-gets _
  or_now-Grown (some ts) = Keeps-pure ts

  random-Grown : Keeps (GrownFrom rs) random
  unfolding random pure
  random-Grown = record { at = λ w h. h }

ruleset parts = (
  keeps_rules, grown_rules, gate_rules, session_rules, pending_failure, schedule-Grown,
  unschedule-Grown, or_now-Grown, random-Grown,
)

module _ (rs : List Row) where
  enqueue-Grown :
      (tid token_hash model : Text) (mask : ℕ)
      → Keeps (GrownFrom rs) (enqueue tid token_hash model mask)
  unfolding enqueue
  enqueue-Grown tid token_hash model mask = search parts depth 12

  persist-Grown :
      (tid token_hash model : Text) (mask : ℕ) (s : BatchState)
      → Keeps (GrownFrom rs) (persist tid token_hash model mask s)
  unfolding persist
  persist-Grown tid token_hash model mask s = search (parts, enqueue-Grown) depth 12

  admit-Grown :
      (tid : Text) (d : TaskData) (model : Text) (p : ResolvedPolicy) (max_slots : ℕ)
      → Keeps (GrownFrom rs) (admit tid d model p max_slots)
  unfolding admit
  admit-Grown tid d model p max_slots = search (parts, persist-Grown) depth 12

  release_row-Grown :
      (tid : Text) (moment : Option ℕ) (d : TaskData)
      → Keeps (GrownFrom rs) (release_row tid moment d)
  unfolding release_row
  release_row-Grown tid moment d = search (parts, admit-Grown) depth 12

  release_found-Grown :
      (tid : Text) (moment : Option ℕ) (o : Option Row)
      → Keeps (GrownFrom rs) (release_found tid moment o)
  release_found-Grown tid moment none = Keeps-pure _
  release_found-Grown tid moment (some r) = release_row-Grown tid moment r.task_data

  pub release-Grown : (tid : Text) (moment : Option ℕ) → Keeps (GrownFrom rs) (release tid moment)
  unfolding release
  release-Grown tid moment = search (parts, release_found-Grown) depth 12

  pub requeue-Grown : (tid : Text) (ceiling : ℕ) → Keeps (GrownFrom rs) (requeue tid ceiling)
  unfolding requeue
  requeue-Grown tid ceiling = search parts depth 12

  pub due-Grown : (moment : ℕ) → Keeps (GrownFrom rs) (due moment)
  unfolding due
  due-Grown moment = external-Grown rs _ (λ v. refl)

pub ruleset dispatch_rules =
    (schedule-Grown, unschedule-Grown, release-Grown, requeue-Grown, due-Grown)

-- For every way in which its calls may end, `release` loses no row, keeps the end of every task that
-- has ended, and moves rows along the state machine only.
release-Grows :
    (tid : Text) (moment : Option ℕ) (w : World) → Grows w.rows (release tid moment w).1.rows
release-Grows tid moment w = (release-Grown w.rows tid moment).at w (Grows-refl w.rows)
