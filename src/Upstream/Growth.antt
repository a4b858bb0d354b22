-- ===== src/Upstream/Growth.antt =====
-- The check of a token leaves the table of tasks alone.
use stask_service.Prelude.{ℕ, Text, Bool, Option, none, some, List, refl}
use stask_service.Rows.{Row}
use stask_service.Service
use stask_service.Service.{World, Credential, Result, raised, pure}
use stask_service.Service.Keeps.{Keeps, Keeps-pure, Keeps-raise, Keeps-catch, keeps_rules}
use stask_service.Store.Growth.{GrownFrom, external-Grown}
use stask_service.Upstream.{
  local_get, local_put, redis_get, redis_put, fetch_credential, of_result, from_table, from_redis,
  from_process, authenticate,
}

module _ (rs : List Row) where
  local_get-Grown : (h : Text) → Keeps (GrownFrom rs) (local_get h)
  unfolding local_get pure
  local_get-Grown h = record { at = λ w k. k }

  local_put-Grown : (h : Text) (user : ℕ) → Keeps (GrownFrom rs) (local_put h user)
  unfolding local_put pure
  local_put-Grown h user = record { at = λ w k. k }

  redis_get-Grown : (h : Text) → Keeps (GrownFrom rs) (redis_get h)
  unfolding redis_get
  redis_get-Grown h = Keeps-catch _ _ (external-Grown rs _ (λ v. refl)) (λ e. Keeps-pure none)

  redis_put-Grown : (h : Text) (user : ℕ) → Keeps (GrownFrom rs) (redis_put h user)
  unfolding redis_put
  redis_put-Grown h user = Keeps-catch _ _ (external-Grown rs _ (λ v. refl)) (λ e. Keeps-pure tt)

  fetch_credential-Grown : (raw_token : Text) → Keeps (GrownFrom rs) (fetch_credential raw_token)
  unfolding fetch_credential
  fetch_credential-Grown raw_token = external-Grown rs _ (λ v. refl)

  of_result-Grown : (r : Result ℕ) → Keeps (GrownFrom rs) (of_result r)
  unfolding of_result
  of_result-Grown (Service.ok user) = Keeps-pure user
  of_result-Grown (raised e) = Keeps-raise e

  from_table-Grown : (h : Text) (row : Option Credential) → Keeps (GrownFrom rs) (from_table h row)
  unfolding from_table
  from_table-Grown h row =
      search (keeps_rules, of_result-Grown, local_put-Grown, redis_put-Grown) depth 12

  from_redis-Grown :
      (raw_token h : Text) (o : Option ℕ) → Keeps (GrownFrom rs) (from_redis raw_token h o)
  unfolding from_redis
  from_redis-Grown raw_token h (some user) = search (keeps_rules, local_put-Grown) depth 12
  from_redis-Grown raw_token h none =
      search (keeps_rules, fetch_credential-Grown, from_table-Grown) depth 12

  from_process-Grown :
      (raw_token h : Text) (o : Option ℕ) → Keeps (GrownFrom rs) (from_process raw_token h o)
  unfolding from_process
  from_process-Grown raw_token h (some user) = Keeps-pure user
  from_process-Grown raw_token h none =
      search (keeps_rules, redis_get-Grown, from_redis-Grown) depth 12

  pub authenticate-Grown :
      (generic : Bool) (raw_token h : Text)
      → Keeps (GrownFrom rs) (authenticate generic raw_token h)
  unfolding authenticate
  authenticate-Grown generic raw_token h =
      search (keeps_rules, local_get-Grown, from_process-Grown) depth 12
