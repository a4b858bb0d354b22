-- ===== src/Tests/Runs.antt =====
-- Runs of the operations on the table, the batches and the queue.
use stask_service.Prelude.{if◌then◌else◌, text_eq, ◌≤◌, Text, codes, none, some, [], ◌∷◌, ◌≡◌, refl}
use stask_service.Schemas.{queued, in_progress}
use stask_service.Store.{claim_for_release, cas}
use stask_service.Store.Races.{wins, claim_for_release-wins, cas-wins}
use stask_service.Dispatch.{or_else, release, requeue}
use stask_service.Dispatch.Sending.{Answer, release-Answer}
use stask_service.Dispatch.Backoff.{DueSoon, requeue-DueSoon}
use stask_service.Batching.Membership.{Sets, due_key, join_script, claim_script, expire}
use stask_service.Batching.Membership.Deadlines.{IsTimed, standing, join_script-deadline}
use stask_service.Batching.Membership.Steps.{
  done, step, joins, starts, runs, expires, HasDeadline, Run-IsTimed, Lapse-HasDeadline,
  claim_script-forgets,
}
use stask_service.Batching.Params.{sanitize_key}
use stask_service.Prelude.{false, arith, ◌<◌}
use stask_service.Service.{World, answers, refuses}
use stask_service.Submit.{Decision, decide, submit, start}
use stask_service.Submit.Restoring.{RaisesAsBefore, start-RaisesAsBefore}
use stask_service.SortedSets.{zscore, members}
use stask_service.Tests.Worlds.{some_world, empty_world, some_plan}

abbrev gpt_1 : Text
gpt_1 = codes "gpt_1"

claim_for_release-wins_example :
    wins (claim_for_release gpt_1) ((λ w. w) ∷ (λ w. w) ∷ []) some_world ≤ 1
claim_for_release-wins_example =
    claim_for_release-wins gpt_1 ((λ w. w) ∷ (λ w. w) ∷ []) some_world
      ((λ v h. h), ((λ v h. h), tt))

cas-wins_example :
    wins
      (cas gpt_1 (queued ∷ []) in_progress (λ d. d) [] none)
      ((λ w. w) ∷ (λ w. w) ∷ [])
      some_world
    ≤ 1
cas-wins_example =
    cas-wins gpt_1 (queued ∷ []) in_progress (λ d. d) [] none ((λ w. w) ∷ (λ w. w) ∷ []) some_world
      refl ((λ v h. h), ((λ v h. h), tt))

release-Answer_example :
    Answer gpt_1 [] (release gpt_1 none some_world).0 (release gpt_1 none some_world).1.sent
release-Answer_example = release-Answer gpt_1 none some_world

requeue-DueSoon_example :
    DueSoon gpt_1 200 60 (requeue gpt_1 60 some_world).0 (requeue gpt_1 60 some_world).1
requeue-DueSoon_example = requeue-DueSoon gpt_1 60 some_world

abbrev no_batch : Sets
no_batch = λ key. []

is_own : text_eq (codes "gpt") due_key ≡ false
unfolding text_eq
is_own = refl

x_is_own : text_eq (codes "x") due_key ≡ false
unfolding text_eq
x_is_own = refl

abbrev joined : Sets
joined = (join_script gpt_1 200 230 (codes "gpt") no_batch).1

join_script-deadline_example :
    let r = join_script gpt_1 200 230 (codes "gpt") no_batch in
    (r.0.1 ≡ some (standing (zscore (codes "gpt") []) 230))
    × (zscore (codes "x") (r.1 due_key)
        ≡ (if text_eq (codes "gpt") (codes "x") then r.0.1 else zscore (codes "x") []))
join_script-deadline_example =
    join_script-deadline gpt_1 200 230 (codes "gpt") (codes "x") no_batch is_own

no_batch-HasDeadline : HasDeadline (codes "gpt") no_batch
no_batch-HasDeadline = refl

no_batch-IsTimed : IsTimed (codes "gpt") no_batch
unfolding zscore
no_batch-IsTimed = refl

Run-IsTimed_example : IsTimed (codes "gpt") joined
Run-IsTimed_example =
    Run-IsTimed (codes "gpt") is_own
      (step no_batch no_batch joined (done no_batch)
        (joins gpt_1 200 230 (codes "gpt") no_batch is_own))
      no_batch-IsTimed

Lapse-HasDeadline_example : HasDeadline (codes "gpt") (expire (codes "x") joined)
Lapse-HasDeadline_example =
    Lapse-HasDeadline (codes "gpt") is_own
      (expires no_batch joined (codes "x")
        (runs no_batch no_batch joined (starts no_batch)
          (joins gpt_1 200 230 (codes "gpt") no_batch is_own))
        x_is_own)
      no_batch-HasDeadline

claim_script-forgets_example :
    (sanitize_key (codes "due") ≡ due_key)
    × (((claim_script due_key joined).0 ≡ members (joined due_key))
        × (((claim_script due_key joined).1 (codes "gpt") ≡ joined (codes "gpt"))
            × (zscore (codes "gpt") ((claim_script due_key joined).1 due_key) ≡ none)))
claim_script-forgets_example = claim_script-forgets joined (codes "gpt") is_own

-- the slot is taken, and then the table refuses the new row
abbrev refusing_world : World
refusing_world = record empty_world { script = answers ∷ refuses ∷ [] }

at_once : (decide some_plan empty_world).queued ≡ false
unfolding decide stask_service.Policy.queues stask_service.Submit.Fields.apply_batch_overrides
    stask_service.Policy.Resolve.resolve_in stask_service.Policy.Resolve.find_entry
    stask_service.Policy.Resolve.match_path
at_once = refl

not_delayed : (decide some_plan empty_world).delayed ≡ false
unfolding decide
not_delayed = refl

no_global_layer : (decide some_plan empty_world).policy.limit_global ≡ 0
unfolding decide stask_service.Submit.Fields.apply_batch_overrides
    stask_service.Policy.Resolve.resolve_in stask_service.Policy.Resolve.find_entry
    stask_service.Policy.Resolve.match_path
no_global_layer = refl

token_layer : 0 < or_else (decide some_plan empty_world).policy.limit_per_token 2
unfolding decide stask_service.Submit.Fields.apply_batch_overrides
    stask_service.Policy.Resolve.resolve_in stask_service.Policy.Resolve.find_entry
    stask_service.Policy.Resolve.match_path
token_layer = omega arith

start-RaisesAsBefore_example :
    RaisesAsBefore refusing_world.counters
      (start (codes "sk") some_plan (decide some_plan empty_world) 2 refusing_world).0
      (start (codes "sk") some_plan (decide some_plan empty_world) 2 refusing_world).1.counters
start-RaisesAsBefore_example =
    start-RaisesAsBefore (codes "sk") some_plan (decide some_plan empty_world) 2 refusing_world
      at_once not_delayed token_layer (λ h. ground (arith, no_global_layer, h)) (λ j. tt) refl
