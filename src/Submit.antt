-- ===== src/Submit.antt =====
-- app/services/submit.py: `submit`, with the progress that its error path reads. The table of
-- policies and the runtime configuration are read from the world.
pub mod Fields
pub mod Joining
pub mod Growth
pub mod Uncounted
pub mod Taking
pub mod Restoring
use stask_service.Prelude.{
  ℕ, suc, Text, codes, Bool, true, false, ◌&&◌, not, ltb, ◌==◌, if◌then◌else◌, take, Option, none,
  some, List, [], ◌∷◌,
}
use stask_service.Schemas.{SubmitPlan, queued, failure, pending}
use stask_service.Rows.{TaskData, BatchState}
use stask_service.Policy.{ResolvedPolicy, normalize_model, layered_at_submit, queues}
use stask_service.Policy.Resolve.{resolve_in}
use stask_service.Service.{
  World, Service, Config, Exn, submit_conflict, slot_exhausted, Layer, token, model_token, global,
  Result, ok, raised, pure, raise, gets, quietly, when, ◌>>=◌, ◌>>◌,
}
use stask_service.Store.{create, cas, exists}
use stask_service.Gate.{acquire, acquire_layered, binding_layer, is_blank, release, release_layered}
use stask_service.Sessions.{store, clear, publish_execute}
use stask_service.Dispatch.{schedule, or_else}
use stask_service.Batching.Params.{group_key}
use stask_service.Batching.Membership.{leave}
use Fields.{build_task_data, batch_fields, apply_batch_overrides}
use Joining.{join_batch, settle, wait_row}

pub record Submitted : Type 0 where
  pub task_id : Text
  pub replayed : Bool
  pub batch_key : Text
  pub batch_state : BatchState

-- the local variables that the error path reads
pub record Progress : Type 0 where
  pub slot_taken : Bool
  pub slot_mask : ℕ
  pub created : Bool
  pub joined : Bool

abbrev pub not_started : Progress
not_started = record { slot_taken = false; slot_mask = 0; created = false; joined = false }

-- what `submit` decides before it changes anything
pub record Decision : Type 0 where
  pub policy : ResolvedPolicy
  pub queued : Bool
  pub model : Text
  pub key : Text
  pub delayed : Bool

unfoldable pub decide : SubmitPlan → World → Decision
decide plan w =
    let c = w.config in
    let policy =
      apply_batch_overrides (resolve_in plan.model plan.path w.policies c.max_slots) plan
        c.max_batch_wait_seconds c.batch_enabled in
    let queued = c.batch_enabled && queues policy in
    let model = normalize_model plan.model in
    record {
      policy = policy;
      queued = queued;
      model = model;
      key =
          if queued
          then group_key (elim plan.batch_key [ none ↦ [] | some k ↦ k ]) model plan.token_hash
              c.group_by_token_model
          else [];
      delayed = ltb w.clock plan.scheduled_at;
    }

limit_of : Layer → ℕ → ℕ → ℕ → ℕ
limit_of token l₁ l₂ l₃ = l₁
limit_of model_token l₁ l₂ l₃ = l₂
limit_of global l₁ l₂ l₃ = l₃

module _ (raw_token : Text) (plan : SubmitPlan) (d : Decision) where
  -- step 4: the mask of the slots that are taken, or SlotExhausted
  unfoldable pub take_slots : ℕ → Service ℕ
  unfolding limit_of
  take_slots max_slots =
      let l₁ = or_else d.policy.limit_per_token max_slots in
      let l₂ = d.policy.limit_model_token in
      let l₃ = d.policy.limit_global in
      if layered_at_submit d.policy
      then (do
        mask ← acquire_layered plan.token_hash d.model l₁ l₂ l₃
        if mask == 0
            then (do
              layer ← binding_layer plan.token_hash d.model l₁ l₂ l₃
              raise (slot_exhausted (or_else (limit_of layer l₁ l₂ l₃) l₁) layer))
            else pure mask)
      else (do
        taken ← acquire plan.token_hash d.policy.limit_per_token
        if taken then pure 1 else raise (slot_exhausted d.policy.limit_per_token token))

  -- the body of `except Exception`, its first part: the slots
  unfoldable pub return_slots : Progress → Service (Unit {0})
  return_slots p = when p.slot_taken (
      if layered_at_submit d.policy
      then release_layered plan.token_hash d.model p.slot_mask
      else release plan.token_hash)

  -- its second part: the batch, the row and the placeholder
  unfoldable pub clean_up : Progress → Service (Unit {0})
  clean_up p = do
    when p.joined (leave plan.task_id d.key)
    if p.created
        then quietly (do
          _ ← cas plan.task_id pending failure (λ x. x) (codes "submit pipeline aborted") none
          clear plan.task_id)
        else when (not (is_blank plan.idempotency_key)) (Joining.release plan.task_id)

  unfoldable pub rollback : Progress → Service (Unit {0})
  rollback p = do return_slots p; clean_up p

  -- the body of `finally`
  unfoldable pub finish : Progress → Service (Unit {0})
  finish p = when (p.created && not (is_blank plan.idempotency_key)) (settle plan.task_id)

  -- What follows a call of the `try` body: an exception is answered by the rollback for what was
  -- done so far, and raised again.
  after_call {ℓ κ} : {A : Type ℓ} {B : Type κ} → Progress → Result A → (A → Service B) → Service B
  unfolding rollback finish
  after_call p (ok a) k = k a
  after_call p (raised e) k = do rollback p; finish p; raise e

  unfoldable pub guarded {ℓ κ} :
      {A : Type ℓ} {B : Type κ} → Progress → Service A → (A → Service B) → Service B
  unfolding after_call
  guarded p m k w = let (r, w') = m w in after_call p r k w'

  -- step 7: whether the task is in a batch now
  unfoldable pub hand_over : Service Bool
  hand_over =
      if d.delayed
      then (do schedule plan.task_id plan.scheduled_at; pure false)
      else if d.queued
      then join_batch plan.task_id d.key d.policy
      else (do publish_execute plan.task_id; pure false)

  -- the data of the new row
  unfoldable pub first_data : ℕ → TaskData
  first_data mask =
      batch_fields d.policy d.queued d.model mask d.delayed d.key (build_task_data plan)

  abbrev submitted : ℕ → Submitted
  submitted mask = record {
    task_id = plan.task_id;
    replayed = false;
    batch_key = (first_data mask).batch_key;
    batch_state = (first_data mask).batch_state;
  }

  -- steps 5 to 7
  unfoldable pub build : Progress → Service Submitted
  build p =
      let q = record p { created = true } in
      guarded p (create plan.task_id (take 32 plan.path) (first_data p.slot_mask) plan.user_id) λ _.
        guarded q (store plan.task_id raw_token)
          λ _. guarded q hand_over λ _. (do finish q; pure (submitted p.slot_mask))

  -- steps 4 to 7
  unfoldable pub start : ℕ → Service Submitted
  start max_slots =
      if d.queued
      then build not_started
      else if d.delayed
      then build not_started
      else guarded not_started (take_slots max_slots)
          λ mask. build (record not_started { slot_taken = true; slot_mask = mask })

abbrev replay : SubmitPlan → Submitted
replay plan = record {
  task_id = plan.task_id;
  replayed = true;
  batch_key = [];
  batch_state = BatchState.absent;
}

unfoldable pub decide_and_start : Text → SubmitPlan → Service Submitted
decide_and_start raw_token plan = do
  w ← gets (λ w. w)
  start raw_token plan (decide plan w) w.config.max_slots

-- steps 1 and 2; the list says what the others do while this request waits for their row
unfoldable pub submit : List (World → World) → Text → SubmitPlan → Service Submitted
submit others raw_token plan =
    if is_blank plan.idempotency_key then decide_and_start raw_token plan else (do
      found ← exists plan.task_id
      if found then pure (replay plan) else (do
        acquired ← Joining.acquire plan.task_id
        if acquired then decide_and_start raw_token plan else (do
          appeared ← wait_row others plan.task_id
          if appeared then pure (replay plan) else raise submit_conflict)))
