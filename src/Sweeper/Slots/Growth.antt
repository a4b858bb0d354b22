-- ===== src/Sweeper/Slots/Growth.antt =====
-- The recalibration of the slots leaves the table of tasks alone.
use stask_service.Prelude.{ℕ, false, List, [], ◌∷◌, refl}
use stask_service.Rows.{Row}
use stask_service.Slots.{SlotKey}
use stask_service.Service.Keeps.{Keeps, Keeps-pure, Keeps-bind, Keeps-catch, keeps_rules}
use stask_service.Store.Growth.{GrownFrom, external-Grown}
use stask_service.Gate.Growth.{gate_rules}
use stask_service.Sweeper.Slots.{Holds, Truth, active_counts, fix, fix_all, recalibrate_slots}

module _ (rs : List Row) where
  active_counts-Grown : (holds : Holds) → Keeps (GrownFrom rs) (active_counts holds)
  unfolding active_counts
  active_counts-Grown holds = external-Grown rs _ (λ v. refl)

  fix-Grown : (item : SlotKey × ℕ) → Keeps (GrownFrom rs) (fix item)
  unfolding fix
  fix-Grown (k, count) = search (keeps_rules, gate_rules) depth 12

  fix_all-Grown : (t : Truth) → Keeps (GrownFrom rs) (fix_all t)
  unfolding fix_all
  fix_all-Grown [] = Keeps-pure 0
  fix_all-Grown (item ∷ t) =
      Keeps-bind _ _ (Keeps-catch _ _ (fix-Grown item) (λ e. Keeps-pure false))
        λ done. Keeps-bind _ _ (fix_all-Grown t) (λ n. Keeps-pure _)

  pub recalibrate_slots-Grown : Keeps (GrownFrom rs) recalibrate_slots
  unfolding recalibrate_slots
  recalibrate_slots-Grown = search (keeps_rules, active_counts-Grown, fix_all-Grown) depth 12
