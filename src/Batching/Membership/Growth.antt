-- ===== src/Batching/Membership/Growth.antt =====
-- Joining, leaving and claiming a batch leave the table alone.
use stask_service.Prelude.{ℕ, Text, List, refl}
use stask_service.Rows.{Row}
use stask_service.Service.Keeps.{Keeps, Keeps-pure, Keeps-catch, Keeps-gets, Keeps-bind}
use stask_service.Store.Growth.{GrownFrom, external-Grown}
use stask_service.Batching.Membership.{join, leave, claim, due_keys}

module _ (rs : List Row) where
  pub join-Grown : (tid key : Text) (wait : ℕ) → Keeps (GrownFrom rs) (join tid key wait)
  unfolding join
  join-Grown tid key wait =
      Keeps-bind _ _ (Keeps-gets _)
        λ ts. Keeps-bind _ _ (external-Grown rs _ (λ v. refl)) (λ reply. Keeps-pure _)

  pub leave-Grown : (tid key : Text) → Keeps (GrownFrom rs) (leave tid key)
  unfolding leave
  leave-Grown tid key = Keeps-catch _ _ (external-Grown rs _ (λ v. refl)) (λ e. Keeps-pure tt)

  pub claim-Grown : (key : Text) → Keeps (GrownFrom rs) (claim key)
  unfolding claim
  claim-Grown key = external-Grown rs _ (λ v. refl)

  pub due_keys-Grown : (moment : ℕ) → Keeps (GrownFrom rs) (due_keys moment)
  unfolding due_keys
  due_keys-Grown moment = external-Grown rs _ (λ v. refl)

pub ruleset membership_rules = (join-Grown, leave-Grown, claim-Grown, due_keys-Grown)
