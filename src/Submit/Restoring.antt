-- ===== src/Submit/Restoring.antt =====
-- What a submission that fails leaves of the slots that it took.
use stask_service.Prelude.{ℕ, ◌<◌, Text, true, false, ◌&&◌, not, ◌≡◌, refl}
use stask_service.Schemas.{SubmitPlan}
use stask_service.Slots.{SlotKey, Counters}
use stask_service.Slots.Release.{AllNat}
use stask_service.Service
use stask_service.Service.{
  World, Service, Result, raised, Exn, pure, raise, gets, external, quietly, when, ◌>>=◌,
}
use stask_service.Service.Triples.{
  Triple, Post, Triple-bind, Triple-pure, Triple-raise, Triple-if, Triple-catch, Triple-weak,
  Triple-keeps,
}
use stask_service.Service.Refusals.{OneRefusal, Before, After}
use stask_service.Gate.{is_blank}
use stask_service.Dispatch.{or_else}
use stask_service.Submit.{
  Decision, Progress, not_started, rollback, return_slots, finish, after_call, guarded, hand_over,
  build, start, Submitted,
}
use stask_service.Submit.Uncounted.{create-refused, store-refused, publish_execute-refused}
use stask_service.Submit.Joining
use stask_service.Submit.Taking.{
  clash, Restores, SameNow, clean_up-Same, finish-Same, return_slots-Same, Start, LayersFit,
  take_slots-Held,
}

module _ {ℓ ℓ'} {A : Type ℓ} {B : Type ℓ'} (raw_token : Text) (plan : SubmitPlan) (d : Decision)
    (R : A → World → Type 0) (S : B → World → Type 0) (E F : World → Type 0) where
  after_call-after :
      (p : Progress) (r : Result A) (k : A → Service B) (w : World)
      → ((a : A) → Triple (R a) (k a) S F)
      → ((e : Exn) → Triple {A = B} E (after_call raw_token plan d p (raised e) k) S F)
      → Post R E r w
      → Post S F (after_call raw_token plan d p r k w).0 (after_call raw_token plan d p r k w).1
  unfolding after_call
  after_call-after p (Service.ok a) k w ka kr h = (ka a).after w h
  after_call-after p (raised e) k w ka kr h = (kr e).after w h

  Triple-guarded :
      {P : World → Type 0} (p : Progress) (m : Service A) (k : A → Service B)
      → Triple P m R E
      → ((a : A) → Triple (R a) (k a) S F)
      → ((e : Exn) → Triple {A = B} E (after_call raw_token plan d p (raised e) k) S F)
      → Triple P (guarded raw_token plan d p m k) S F
  unfolding guarded
  Triple-guarded p m k km kk kr = record {
    after = λ w h. after_call-after p (m w).0 k (m w).1 kk kr (km.after w h);
  }

module _ (raw_token : Text) (plan : SubmitPlan) (d : Decision) (c : Counters) where
  abbrev Anything : Submitted → World → Type 0
  Anything s w = Unit

  undone {ℓ} :
      {A : Type ℓ} (p : Progress) (k : A → Service Submitted)
      → p.slot_taken ≡ true
      → (e : Exn)
      → Triple
          (After (λ w. Restores raw_token plan d c p.slot_mask w.counters))
          (after_call raw_token plan d p (raised e) k)
          Anything
          (SameNow raw_token plan d c)
  unfolding after_call rollback
  undone p k taken e =
      Triple-bind {R = λ x. SameNow raw_token plan d c} _ _
        (Triple-bind {R = λ x. SameNow raw_token plan d c} _ _
          (Triple-weak _ (λ w h. h) (λ a w h. h) (λ w h. elim h [ ])
            (return_slots-Same raw_token plan d c p taken))
          (λ x. Triple-keeps _ (clean_up-Same raw_token plan d c p)))
        λ x.
          Triple-bind {R = λ x. SameNow raw_token plan d c} _ _
            (Triple-keeps _ (finish-Same raw_token plan d c p)) (λ x. Triple-raise e (λ w h. h))

  untouched :
      (max_slots : ℕ) (k : ℕ → Service Submitted) (e : Exn)
      → Triple
          (SameNow raw_token plan d c)
          (after_call raw_token plan d not_started (raised e) k)
          Anything
          (SameNow raw_token plan d c)
  unfolding after_call rollback return_slots
  untouched max_slots k e =
      Triple-bind {R = λ x. SameNow raw_token plan d c} _ _
        (Triple-bind {R = λ x. SameNow raw_token plan d c} _ _ (Triple-pure tt (λ w h. h))
          (λ x. Triple-keeps _ (clean_up-Same raw_token plan d c not_started)))
        λ x.
          Triple-bind {R = λ x. SameNow raw_token plan d c} _ _
            (Triple-keeps _ (finish-Same raw_token plan d c not_started))
            (λ x. Triple-raise e (λ w h. h))

  nothing {ℓ} : {A : Type ℓ} (r : Result A) (w : World) → Post (λ a w. Unit {0}) (λ w. Unit {0}) r w
  nothing (Service.ok a) w = tt
  nothing (raised e) w = tt

  finish-Quiet :
      (p : Progress) → Triple (λ w. Unit {0}) (finish raw_token plan d p) (λ x w. Unit {0}) (λ w. ⊥)
  unfolding finish Joining.settle
  finish-Quiet p =
      Triple-if (p.created && not (is_blank plan.idempotency_key)) _ _
        (λ z.
          Triple-catch {E = λ w. Unit} _ _ (record { after = λ w h. nothing _ _ })
            (λ e. Triple-pure tt (λ w h. tt)))
        (λ z. Triple-pure tt (λ w h. tt))

  hand_over-published :
      (P : Counters → Type 0)
      → d.queued ≡ false
      → d.delayed ≡ false
      → Triple
          (Before (λ w. P w.counters))
          (hand_over raw_token plan d)
          (λ b w. Unit {0})
          (After (λ w. P w.counters))
  unfolding hand_over
  hand_over-published P direct now =
      rw (now, direct)
        (Triple-bind _ _ (publish_execute-refused P _) (λ x. Triple-pure false (λ w h. tt)))

  build-Same :
      (p : Progress)
      → p.slot_taken ≡ true
      → d.queued ≡ false
      → d.delayed ≡ false
      → Triple
          (Before (λ w. Restores raw_token plan d c p.slot_mask w.counters))
          (build raw_token plan d p)
          Anything
          (SameNow raw_token plan d c)
  unfolding build
  build-Same p taken direct now =
      let restores = Restores raw_token plan d c p.slot_mask in
      Triple-guarded raw_token plan d _ Anything _ _ p _ _ (create-refused restores _ _ _ _)
        (λ a.
          Triple-guarded raw_token plan d _ Anything _ _ _ _ _ (store-refused restores _ _)
            (λ a.
              Triple-guarded raw_token plan d _ Anything _ _ _ _ _
                (hand_over-published restores direct now)
                (λ a.
                  Triple-bind _ _
                    (Triple-weak _ (λ w h. h) (λ x w h. h) (λ w h. elim h [ ]) (finish-Quiet _))
                    (λ x. Triple-pure _ (λ w h. tt)))
                (undone _ _ taken))
            (undone _ _ taken))
        (undone p _ taken)

  start-Same :
      (max_slots : ℕ)
      → d.queued ≡ false
      → d.delayed ≡ false
      → LayersFit raw_token plan d c max_slots
      → AllNat c
      → Triple
          (Before (Start raw_token plan d c))
          (start raw_token plan d max_slots)
          Anything
          (SameNow raw_token plan d c)
  unfolding start
  start-Same max_slots direct now fit nat =
      Triple-if d.queued _ _ (λ e. elim (clash d.queued e direct) [ ])
        (λ _.
          Triple-if d.delayed _ _ (λ e. elim (clash d.delayed e now) [ ])
            (λ _.
              Triple-guarded raw_token plan d _ Anything _ _ not_started _ _
                (take_slots-Held raw_token plan d c max_slots fit nat)
                (λ mask. build-Same _ refl direct now) (untouched max_slots _)))

-- what a failure leaves of the counters
abbrev pub RaisesAsBefore : Counters → Result Submitted → Counters → Type 0
RaisesAsBefore c (Service.ok s) k = Unit
RaisesAsBefore c (raised e) k = (j : SlotKey) → k j ≡ c j

as_before :
    (raw_token : Text) (plan : SubmitPlan) (d : Decision) (c : Counters) (r : Result Submitted)
    (w : World)
    → Post (Anything raw_token plan d c) (SameNow raw_token plan d c) r w
    → RaisesAsBefore c r w.counters
as_before raw_token plan d c (Service.ok s) w h = tt
as_before raw_token plan d c (raised e) w h = h

-- Of a task that runs at once, where the token layer is on, the global layer only together with the
-- middle one, all counters are natural numbers, at most one call is refused and no reply is lost: a
-- submission that raises leaves every slot counter as it was.
pub start-RaisesAsBefore :
    (raw_token : Text) (plan : SubmitPlan) (d : Decision) (max_slots : ℕ) (w : World)
    → d.queued ≡ false
    → d.delayed ≡ false
    → 0 < or_else d.policy.limit_per_token max_slots
    → (0 < d.policy.limit_global → 0 < d.policy.limit_model_token)
    → AllNat w.counters
    → OneRefusal w.script
    → RaisesAsBefore w.counters
        (start raw_token plan d max_slots w).0
        (start raw_token plan d max_slots w).1.counters
start-RaisesAsBefore raw_token plan d max_slots w direct now on both nat one =
    as_before raw_token plan d w.counters (start raw_token plan d max_slots w).0
      (start raw_token plan d max_slots w).1
      ((start-Same raw_token plan d w.counters max_slots direct now (on, both) nat).after w
        (one, refl))
