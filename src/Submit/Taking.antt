-- ===== src/Submit/Taking.antt =====
-- The slots that a submission takes, and what giving them back makes of the counters.
use stask_service.Prelude.{
  ℕ, suc, ◌<◌, Text, Bool, true, false, ◌&&◌, not, ◌==◌, if◌then◌else◌, ◌≡◌, refl, arith,
  Bool-cases, inl, inr, subst, sym, ap, zero,
}
use stask_service.Prelude.Int.{exceeds, pred-succ}
use stask_service.Schemas.{SubmitPlan}
use stask_service.Policy.{layered_at_submit}
use stask_service.Slots.{
  SlotKey, token_slot, model_token_slot, global_slot, Counters, incr, decr, decr_floor, acquire3,
  release3,
}
use stask_service.Slots.Acquire.{key_eq-eq}
use stask_service.Slots.Release.{AllNat, given_back-succ, release3-acquire3}
use stask_service.Service.{World, Exn, pure, raise}
use stask_service.Service.Keeps.{Keeps, Keeps-pure, Keeps-if, Keeps-bind, Keeps-catch}
use stask_service.Service.Triples.{
  Triple, Triple-bind, Triple-pure, Triple-raise, Triple-if, Triple-catch, Triple-weak,
  Triple-keeps, Triple-answered,
}
use stask_service.Service.Refusals.{Before, After, Triple-refused}
use stask_service.Gate.{acquire, acquire1, acquire_layered, release, release_layered, is_blank}
use stask_service.Dispatch.{or_else}
use stask_service.Submit.{Decision, Progress, take_slots, return_slots, clean_up, finish}
use stask_service.Submit.Uncounted.{
  cas-On, clear-On, leave-On, release-On, settle-On, binding_layer-On,
}

pub clash : (b : Bool) → b ≡ true → b ≡ false → ⊥
clash true x y = ground arith
clash false x y = ground arith

module _ (raw_token : Text) (plan : SubmitPlan) (d : Decision) (c : Counters) where
  -- what `rollback` makes of the counters
  abbrev pub given : ℕ → Counters → Counters
  given mask k =
      if layered_at_submit d.policy
      then release3 (token_slot plan.token_hash) (model_token_slot plan.token_hash d.model)
          (global_slot d.model) mask k
      else decr_floor (token_slot plan.token_hash) k

  abbrev pub Same : Counters → Type 0
  Same k = (j : SlotKey) → k j ≡ c j

  -- slots are taken, and giving them back restores the counters
  abbrev pub Restores : ℕ → Counters → Type 0
  Restores mask k = ((mask == 0) ≡ false) × ((j : SlotKey) → given mask k j ≡ c j)

  abbrev pub SameNow : World → Type 0
  SameNow w = Same w.counters

  pub clean_up-Same : (p : Progress) → Keeps SameNow (clean_up raw_token plan d p)
  unfolding clean_up
  clean_up-Same p = Keeps-bind _ _ (Keeps-if p.joined _ _ (leave-On Same _ _) (Keeps-pure tt)) λ x.
      Keeps-if p.created _ _
        (Keeps-catch _ _ (Keeps-bind _ _ (cas-On Same _ _ _ _ _ _) (λ b. clear-On Same _))
          (λ e. Keeps-pure tt))
        (Keeps-if (not (is_blank plan.idempotency_key)) _ _ (release-On Same _) (Keeps-pure tt))

  pub finish-Same : (p : Progress) → Keeps SameNow (finish raw_token plan d p)
  unfolding finish
  finish-Same p =
      Keeps-if (p.created && not (is_blank plan.idempotency_key)) _ _ (settle-On Same _)
        (Keeps-pure tt)

  -- slots are given back where no call is refused any more
  pub return_slots-Same :
      (p : Progress)
      → p.slot_taken ≡ true
      → Triple
          (After (λ w. Restores p.slot_mask w.counters))
          (return_slots raw_token plan d p)
          (λ x. SameNow)
          (λ w. ⊥)
  unfolding return_slots release_layered release
  return_slots-Same p taken = rw taken (elim (Bool-cases (layered_at_submit d.policy)) [
    | inl e ↦ rw e (
        Triple-if (p.slot_mask == 0) _ _
          (λ z. record { after = λ w h. elim (clash (p.slot_mask == 0) z h.1.0) [ ] })
          (λ z.
            Triple-catch {E = λ w. ⊥} _ _ (Triple-answered (λ w h. h.0) _ (λ w h. h.1.1))
              (λ x. Triple-pure tt (λ w h. elim h [ ]))))
    | inr e ↦ rw e (
        Triple-catch {E = λ w. ⊥} _ _ (Triple-answered (λ w h. h.0) _ (λ w h. h.1.1))
          (λ x. Triple-pure tt (λ w h. elim h [ ])))
  ])

  -- every counter as before, for a counter function that is the old one
  abbrev pub Start : World → Type 0
  Start w = w.counters ≡ c

  abbrev Held : ℕ → World → Type 0
  Held mask w = (j : SlotKey) → given mask w.counters j ≡ c j

  one_given :
      AllNat c
      → (j : SlotKey)
      → decr_floor (token_slot plan.token_hash) (incr (token_slot plan.token_hash) c) j ≡ c j
  one_given nat j = ground (
    arith,
    given_back-succ (c (token_slot plan.token_hash)) (nat (token_slot plan.token_hash)),
    key_eq-eq (token_slot plan.token_hash) j,
  )

  one_taken :
      (limit : ℕ)
      → AllNat c
      → let r = acquire1 (token_slot plan.token_hash) limit c in
        if r.0
        then ((j : SlotKey) → decr_floor (token_slot plan.token_hash) r.1 j ≡ c j)
        else Same r.1
  unfolding acquire1
  one_taken limit nat =
      elim (Bool-cases
        (exceeds (incr (token_slot plan.token_hash) c (token_slot plan.token_hash)) limit)) [
          | inl e ↦ rw e (λ j. one_back j)
          | inr e ↦ rw e (one_given nat)
        ]
    where
      one_back :
          (j : SlotKey)
          → decr (token_slot plan.token_hash) (incr (token_slot plan.token_hash) c) j ≡ c j
      one_back j = ground (
        arith,
        pred-succ (c (token_slot plan.token_hash)),
        key_eq-eq (token_slot plan.token_hash) j,
      )

  abbrev pub LayersFit : ℕ → Type 0
  LayersFit max_slots =
      (0 < or_else d.policy.limit_per_token max_slots)
      × (0 < d.policy.limit_global → 0 < d.policy.limit_model_token)

  -- what LUA_SLOT_RELEASE3 makes of the counters
  abbrev all_given : ℕ → Counters → Counters
  all_given mask k =
      release3 (token_slot plan.token_hash) (model_token_slot plan.token_hash d.model)
        (global_slot d.model) mask k

  unheld :
      (mask : ℕ) (k : Counters)
      → (mask == 0) ≡ true
      → ((j : SlotKey) → all_given mask k j ≡ c j)
      → Same k
  unfolding release3
  unheld zero k z h = h
  unheld (suc n) k z h = ground (arith, z)

  all_taken :
      (max_slots : ℕ) (k : Counters)
      → LayersFit max_slots
      → AllNat c
      → k ≡ c
      → let r =
          acquire3
            (token_slot plan.token_hash)
            (model_token_slot plan.token_hash d.model)
            (global_slot d.model)
            (or_else d.policy.limit_per_token max_slots)
            d.policy.limit_model_token
            d.policy.limit_global
            k in
        (j : SlotKey) → all_given r.0 r.1 j ≡ c j
  all_taken max_slots k fit nat same =
      subst
        (λ k.
          let r =
            acquire3 (token_slot plan.token_hash) (model_token_slot plan.token_hash d.model)
              (global_slot d.model) (or_else d.policy.limit_per_token max_slots)
              d.policy.limit_model_token d.policy.limit_global k in
          (j : SlotKey) → all_given r.0 r.1 j ≡ c j)
        (sym same)
        (release3-acquire3 plan.token_hash d.model (or_else d.policy.limit_per_token max_slots)
          d.policy.limit_model_token d.policy.limit_global c fit.0 fit.1 nat)

  Start-Same : (w : World) → After Start w → SameNow w
  Start-Same w h j = ap (λ k. k j) h.1

  abbrev OneTaken : Bool → World → Type 0
  OneTaken b w =
      if b
      then ((j : SlotKey) → decr_floor (token_slot plan.token_hash) w.counters j ≡ c j)
      else Same w.counters

  one_started :
      (limit : ℕ)
      → AllNat c
      → (k : Counters) → k ≡ c
      → let r = acquire1 (token_slot plan.token_hash) limit k in
        if r.0
        then ((j : SlotKey) → decr_floor (token_slot plan.token_hash) r.1 j ≡ c j)
        else Same r.1
  one_started limit nat k same =
      subst
        (λ k.
          let r = acquire1 (token_slot plan.token_hash) limit k in
          if r.0
          then ((j : SlotKey) → decr_floor (token_slot plan.token_hash) r.1 j ≡ c j)
          else Same r.1)
        (sym same) (one_taken limit nat)

  after_one :
      (b : Bool) (e : Exn)
      → Triple
          (Before (OneTaken b))
          (if b then pure 1 else raise e)
          (λ mask. Before (λ w.
            ((mask == 0) ≡ false)
            × ((j : SlotKey) → decr_floor (token_slot plan.token_hash) w.counters j ≡ c j)))
          SameNow
  after_one true e = Triple-pure 1 (λ w h. (h.0, (refl, h.1)))
  after_one false e = Triple-raise e (λ w h. h.1)

  pub take_slots-Held :
      (max_slots : ℕ)
      → LayersFit max_slots
      → AllNat c
      → Triple
          (Before Start)
          (take_slots raw_token plan d max_slots)
          (λ mask. Before (λ w. Restores mask w.counters))
          SameNow
  unfolding take_slots acquire_layered acquire
  take_slots-Held max_slots fit nat = elim (Bool-cases (layered_at_submit d.policy)) [
    | inl e ↦ rw e (
        Triple-bind {R = λ mask. Before (λ w. (j : SlotKey) → all_given mask w.counters j ≡ c j)} _
          _
          (Triple-weak _ (λ w h. h) (λ a w h. h) Start-Same
            (Triple-refused Start (λ mask w. (j : SlotKey) → all_given mask w.counters j ≡ c j)
              (λ w s h. h) _ (λ v h. all_taken max_slots v.counters fit nat h) (λ w. refl)))
          λ mask.
            Triple-if (mask == 0) _ _
              (λ z.
                Triple-weak _ (λ w h. unheld mask w.counters z h.1) (λ a w h. h) (λ w h. h)
                  (Triple-bind {R = λ l. SameNow} _ _
                    (Triple-keeps _ (binding_layer-On Same _ _ _ _ _))
                    (λ l. Triple-raise _ (λ w h. h))))
              (λ z. Triple-pure mask (λ w h. (h.0, (z, h.1)))))
    | inr e ↦ rw e (
        Triple-bind {R = λ b. Before (OneTaken b)} _ _
          (Triple-weak _ (λ w h. h) (λ a w h. h) Start-Same
            (Triple-refused Start OneTaken (λ w s h. h) _
              (λ v h. one_started d.policy.limit_per_token nat v.counters h) (λ w. refl)))
          λ b. after_one b _)
  ]
