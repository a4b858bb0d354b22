-- ===== src/Sessions/Growth.antt =====
-- The sessions and the queue leave the table alone.
use stask_service.Prelude.{ℕ, Text, List, refl}
use stask_service.Rows.{Row}
use stask_service.Service.Keeps.{Keeps, Keeps-pure, Keeps-catch}
use stask_service.Store.Growth.{GrownFrom, external-Grown}
use stask_service.Sessions.{
  store, get, clear, publish_execute, publish_release_batch, publish_notify,
}

module _ (rs : List Row) where
  pub store-Grown : (tid raw_token : Text) → Keeps (GrownFrom rs) (store tid raw_token)
  unfolding store
  store-Grown tid raw_token = external-Grown rs _ (λ v. refl)

  pub session-Grown : (tid : Text) → Keeps (GrownFrom rs) (get tid)
  unfolding get
  session-Grown tid = external-Grown rs _ (λ v. refl)

  pub clear-Grown : (tid : Text) → Keeps (GrownFrom rs) (clear tid)
  unfolding clear
  clear-Grown tid = Keeps-catch _ _ (external-Grown rs _ (λ v. refl)) (λ e. Keeps-pure tt)

  pub publish_execute-Grown : (tid : Text) → Keeps (GrownFrom rs) (publish_execute tid)
  unfolding publish_execute
  publish_execute-Grown tid = external-Grown rs _ (λ v. refl)

  pub publish_release_batch-Grown :
      (key source : Text) → Keeps (GrownFrom rs) (publish_release_batch key source)
  unfolding publish_release_batch
  publish_release_batch-Grown key source = external-Grown rs _ (λ v. refl)

  pub publish_notify-Grown :
      (tid : Text) (attempt delay_seconds : ℕ)
      → Keeps (GrownFrom rs) (publish_notify tid attempt delay_seconds)
  unfolding publish_notify
  publish_notify-Grown tid attempt delay_seconds = external-Grown rs _ (λ v. refl)

pub ruleset session_rules = (
  store-Grown, session-Grown, clear-Grown, publish_execute-Grown, publish_release_batch-Grown,
  publish_notify-Grown,
)
