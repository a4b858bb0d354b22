-- ===== src/Gate/Growth.antt =====
-- The slots and the sessions leave the table alone.
use stask_service.Prelude.{ℕ, Text, ◌==◌, List, refl}
use stask_service.Rows.{Row, TaskData}
use stask_service.Slots.{SlotKey}
use stask_service.Service.Keeps.{Keeps, Keeps-pure, Keeps-catch, Keeps-if, keeps_rules}
use stask_service.Store.Growth.{GrownFrom, external-Grown}
use stask_service.Gate.{
  acquire, acquire_layered, release_layered, release_for_task, release, current, binding_layer,
  reset, is_blank,
}

module _ (rs : List Row) where
  pub acquire-Grown :
      (token_hash : Text) (limit : ℕ) → Keeps (GrownFrom rs) (acquire token_hash limit)
  unfolding acquire
  acquire-Grown token_hash limit = external-Grown rs _ (λ v. refl)

  pub acquire_layered-Grown :
      (token_hash model : Text) (a b c : ℕ)
      → Keeps (GrownFrom rs) (acquire_layered token_hash model a b c)
  unfolding acquire_layered
  acquire_layered-Grown token_hash model a b c = external-Grown rs _ (λ v. refl)

  pub release_layered-Grown :
      (token_hash model : Text) (mask : ℕ)
      → Keeps (GrownFrom rs) (release_layered token_hash model mask)
  unfolding release_layered
  release_layered-Grown token_hash model mask =
      Keeps-if (mask == 0) _ _ (Keeps-pure tt)
        (Keeps-catch _ _ (external-Grown rs _ (λ v. refl)) (λ e. Keeps-pure tt))

  pub release_for_task-Grown : (d : TaskData) → Keeps (GrownFrom rs) (release_for_task d)
  unfolding release_for_task
  release_for_task-Grown d =
      Keeps-if (is_blank d.token_hash) _ _ (Keeps-pure tt)
        (release_layered-Grown d.token_hash d.slot_model d.slot_flags)

  pub release-Grown : (token_hash : Text) → Keeps (GrownFrom rs) (release token_hash)
  unfolding release
  release-Grown token_hash = Keeps-catch _ _ (external-Grown rs _ (λ v. refl)) (λ e. Keeps-pure tt)

  pub current-Grown : (k : SlotKey) → Keeps (GrownFrom rs) (current k)
  unfolding current
  current-Grown k = external-Grown rs _ (λ v. refl)

  pub binding_layer-Grown :
      (token_hash model : Text) (a b c : ℕ)
      → Keeps (GrownFrom rs) (binding_layer token_hash model a b c)
  unfolding binding_layer
  binding_layer-Grown token_hash model a b c = search (keeps_rules, current-Grown)

  pub reset-Grown : (k : SlotKey) (value : ℕ) → Keeps (GrownFrom rs) (reset k value)
  unfolding reset
  reset-Grown k value = external-Grown rs _ (λ v. refl)

pub ruleset gate_rules = (
  acquire-Grown, acquire_layered-Grown, release_layered-Grown, release_for_task-Grown,
  release-Grown, current-Grown, binding_layer-Grown, reset-Grown,
)
