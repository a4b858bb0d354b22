-- ===== src/Submit/Growth.antt =====
-- A submission adds rows and moves rows along the state machine only, however its calls end.
use stask_service.Prelude.{ℕ, Text, true, List, [], ◌∷◌, refl, arith}
use stask_service.Schemas.{SubmitPlan, failure, pending}
use stask_service.Rows.{Row}
use stask_service.Policy.{ResolvedPolicy}
use stask_service.Service.{World, Service, Result, ok, raised, pure}
use stask_service.Service.Keeps.{
  Keeps, Keeps-pure, Keeps-raise, Keeps-catch, Keeps-if, Keeps-bind, keeps_rules,
}
use stask_service.Store.Growth.{
  Grows, Grows-refl, GrownFrom, OthersKeep, Moves, pending-Moves, external-Grown, exists-Grown,
  grown_rules,
}
use stask_service.Gate.{is_blank}
use stask_service.Gate.Growth.{gate_rules}
use stask_service.Sessions.Growth.{session_rules}
use stask_service.Dispatch.Growth.{dispatch_rules}
use stask_service.Batching.Membership.Growth.{membership_rules}
use stask_service.Submit.{
  Decision, Progress, take_slots, rollback, return_slots, clean_up, finish, after_call, guarded,
  hand_over, build, start, decide_and_start, submit,
}
use stask_service.Submit.Joining.{join_batch, acquire, release, settle, is_held, wait_row}

pending_failure : Moves pending failure
pending_failure = pending-Moves failure refl

module _ (rs : List Row) where
  acquire-Grown : (tid : Text) → Keeps (GrownFrom rs) (acquire tid)
  unfolding acquire
  acquire-Grown tid = external-Grown rs _ (λ v. ground arith)

  release-Grown : (tid : Text) → Keeps (GrownFrom rs) (release tid)
  unfolding release
  release-Grown tid = external-Grown rs _ (λ v. refl)

  settle-Grown : (tid : Text) → Keeps (GrownFrom rs) (settle tid)
  unfolding settle
  settle-Grown tid = Keeps-catch _ _ (external-Grown rs _ (λ v. refl)) (λ e. Keeps-pure tt)

  is_held-Grown : (tid : Text) → Keeps (GrownFrom rs) (is_held tid)
  unfolding is_held
  is_held-Grown tid = external-Grown rs _ (λ v. refl)

ruleset parts = (
  keeps_rules, grown_rules, gate_rules, session_rules, dispatch_rules, membership_rules,
  pending_failure, acquire-Grown, release-Grown, settle-Grown, is_held-Grown,
)

module _ (rs : List Row) where
  pub join_batch-Grown :
      (tid key : Text) (p : ResolvedPolicy) → Keeps (GrownFrom rs) (join_batch tid key p)
  unfolding join_batch
  join_batch-Grown tid key p = search parts depth 12

  module _ (raw_token : Text) (plan : SubmitPlan) (d : Decision) where
    take_slots-Grown : (n : ℕ) → Keeps (GrownFrom rs) (take_slots raw_token plan d n)
    unfolding take_slots
    take_slots-Grown n = search parts depth 12

    rollback-Grown : (p : Progress) → Keeps (GrownFrom rs) (rollback raw_token plan d p)
    unfolding rollback return_slots clean_up
    rollback-Grown p = search parts depth 12

    finish-Grown : (p : Progress) → Keeps (GrownFrom rs) (finish raw_token plan d p)
    unfolding finish
    finish-Grown p = search parts depth 12

    hand_over-Grown : Keeps (GrownFrom rs) (hand_over raw_token plan d)
    unfolding hand_over
    hand_over-Grown = search (parts, join_batch-Grown) depth 12

    after_call-Grown {ℓ κ} :
        {A : Type ℓ} {B : Type κ} (p : Progress) (r : Result A) (k : A → Service B)
        → ((a : A) → Keeps (GrownFrom rs) (k a))
        → Keeps (GrownFrom rs) (after_call raw_token plan d p r k)
    unfolding after_call
    after_call-Grown p (ok a) k h = h a
    after_call-Grown p (raised e) k h =
        Keeps-bind _ _ (rollback-Grown p) λ _. Keeps-bind _ _ (finish-Grown p) λ _. Keeps-raise e

    guarded-Grown {ℓ κ} :
        {A : Type ℓ} {B : Type κ} (p : Progress) (m : Service A) (k : A → Service B)
        → Keeps (GrownFrom rs) m
        → ((a : A) → Keeps (GrownFrom rs) (k a))
        → Keeps (GrownFrom rs) (guarded raw_token plan d p m k)
    unfolding guarded
    guarded-Grown p m k hm hk = record {
      at = λ w h. (after_call-Grown p (m w).0 k hk).at (m w).1 (hm.at w h);
    }

    build-Grown : (p : Progress) → Keeps (GrownFrom rs) (build raw_token plan d p)
    unfolding build
    build-Grown p = search (parts, guarded-Grown, hand_over-Grown, finish-Grown) depth 12

    start-Grown : (n : ℕ) → Keeps (GrownFrom rs) (start raw_token plan d n)
    unfolding start
    start-Grown n = search (parts, guarded-Grown, build-Grown, take_slots-Grown) depth 12

  wait_row-Grown :
      (others : List (World → World)) (tid : Text)
      → OthersKeep rs others
      → Keeps (GrownFrom rs) (wait_row others tid)
  unfolding wait_row pure
  wait_row-Grown [] tid h = exists-Grown rs tid
  wait_row-Grown (f ∷ others) tid h = Keeps-bind _ _ (exists-Grown rs tid) λ found.
      Keeps-if found _ _ (Keeps-pure true) (
        Keeps-bind _ _ (is_held-Grown rs tid) λ held.
          Keeps-if held _ _
            (Keeps-bind _ _ (record { at = λ w g. h.0 w g }) (λ _. wait_row-Grown others tid h.1))
            (exists-Grown rs tid))

  decide_and_start-Grown :
      (raw_token : Text) (plan : SubmitPlan)
      → Keeps (GrownFrom rs) (decide_and_start raw_token plan)
  unfolding decide_and_start
  decide_and_start-Grown raw_token plan = search (parts, start-Grown) depth 12

  pub submit-Grown :
      (others : List (World → World)) (raw_token : Text) (plan : SubmitPlan)
      → OthersKeep rs others
      → Keeps (GrownFrom rs) (submit others raw_token plan)
  unfolding submit
  submit-Grown others raw_token plan h =
      Keeps-if (is_blank plan.idempotency_key) _ _ (decide_and_start-Grown raw_token plan) (
        Keeps-bind _ _ (exists-Grown rs plan.task_id) λ found. Keeps-if found _ _ (Keeps-pure _) (
          Keeps-bind _ _ (acquire-Grown rs plan.task_id) λ acquired.
            Keeps-if acquired _ _ (decide_and_start-Grown raw_token plan) (
              Keeps-bind _ _ (wait_row-Grown others plan.task_id h)
                λ appeared. Keeps-if appeared _ _ (Keeps-pure _) (Keeps-raise _))))

-- However its calls end, a submission loses no row and moves rows along the state machine only, as
-- long as the requests that it waits for do so.
submit-Grows :
    (others : List (World → World)) (raw_token : Text) (plan : SubmitPlan) (w : World)
    → OthersKeep w.rows others
    → Grows w.rows (submit others raw_token plan w).1.rows
submit-Grows others raw_token plan w h =
    (submit-Grown w.rows others raw_token plan h).at w (Grows-refl w.rows)
