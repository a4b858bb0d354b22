-- ===== src/Service.antt =====
-- The world that the service works in, and its effects. A handler is a function on the world that
-- returns or raises. Each call of MySQL, Redis or the queue asks the script of the world how it
-- ends: it is answered, it is refused and nothing has happened, or the reply is lost after the
-- call took effect. Beyond the script every call is answered.
pub mod Keeps
pub mod Triples
pub mod Refusals
use stask_service.Prelude.{
  ℕ, ◌+◌, Text, text_eq, Bool, true, false, if◌then◌else◌, Option, none, some, List, [], ◌∷◌, ◌++◌,
}
use stask_service.Prelude.Int.{ℤ}
use stask_service.Schemas.{Status}
use stask_service.Rows.{Row}
use stask_service.SortedSets.{SortedSet}
use stask_service.Slots.{Counters}
use stask_service.Policy.{Table}

pub data Fault : Type 0 where
  answers refuses loses : Fault

-- The messages that `queue.py` publishes: `kiq` of a task, or `schedule_by_time`.
pub data Message : Type 0 where
  execute_task : Text → Message
  notify_task : Text → ℕ → ℕ → Message
  release_batch : Text → Text → Message

pub data Layer : Type 0 where
  token model_token global : Layer

-- What a handler raises; `http` is an HTTPException with its status code.
pub data Exn : Type 0 where
  external_error submit_conflict decode_error : Exn
  http : ℕ → Exn
  slot_exhausted : ℕ → Layer → Exn

pub data Result {ℓ} (A : Type ℓ) : Type ℓ where
  ok : A → Result A
  raised : Exn → Result A

-- How an HTTP call of the upstream ends.
pub data Reply : Type 0 where
  connect_error broken : Text → Reply  -- the name of the exception
  response : ℕ → Text → Text → Reply  -- status, content type, body

pub record Config : Type 0 where
  pub max_slots : ℕ
  pub batch_enabled : Bool
  pub batch_backoff_max_seconds : ℕ
  pub max_batch_wait_seconds : ℕ
  pub retry_max : ℕ
  pub retry_max_connect : ℕ
  pub response_max_bytes : ℕ
  pub plain_max_bytes : ℕ
  pub group_by_token_model : Bool
  pub channel_id : ℕ
  pub callback_max_attempts : ℕ
  pub worker_timeout : ℕ
  pub dispatch_lock_margin_seconds : ℕ
  pub sweep_batch_limit : ℕ
  pub task_max_lifetime_seconds : ℕ
  pub result_ttl_seconds : ℕ
  pub result_purge_batch_limit : ℕ
  pub body_max_bytes : ℕ
  pub rate_limit : ℕ
  pub rate_limit_window_seconds : ℕ
  pub max_delay_seconds : ℕ
  pub poll_wait_max_seconds : ℕ

-- A callback as it was sent; a blank signature is no header.
pub record Callback : Type 0 where
  pub task : Text
  pub url : Text
  pub body : Text
  pub timestamp : ℕ
  pub signature : Text

-- A row of the gateway's tables `tokens` and `users`.
pub record Credential : Type 0 where
  pub status : ℕ
  pub expired_time : ℤ
  pub user_status : ℕ
  pub unlimited_quota : Bool
  pub remain_quota : ℤ
  pub user_quota : ℤ
  pub user_id : ℕ

pub record World : Type 0 where
  pub clock : ℕ
  pub config : Config
  pub policies : Table  -- what `modelpolicy._parse` makes of the stored value
  pub rows : List Row
  pub counters : Counters
  pub due : SortedSet
  pub batches : Text → SortedSet  -- at "due" the deadlines of all batches
  pub sessions : Text → Option Text
  pub locks : Text → Option ℕ
  pub placeholders : Text → Bool
  pub sweep_locks : Text → Bool
  pub statuses : Text → Option Status
  pub sent : List Message
  pub calls : List Text  -- the task of each HTTP call that was made upstream
  pub replies : List Reply
  pub draws : List ℕ  -- what `random` draws, in thousandths
  pub posts : List Callback
  pub credentials : Text → Option Credential
  pub auth_cache : Text → Option ℕ  -- the user of a token hash, in Redis
  pub local_auth : List (Text × ℕ × ℕ)  -- in the process: when it was noted, and the user
  pub overrides : List (Text × Text)  -- the hash of the runtime settings
  pub windows : Text → SortedSet  -- the requests of each caller, for the rate limit
  pub script : List Fault

abbrev pub Service {ℓ} : Type ℓ → Type ℓ
Service A = World → Result A × World

abbrev pub put_at {ℓ} : {A : Type ℓ} → Text → A → (Text → A) → Text → A
put_at k a f = λ j. if text_eq k j then a else f j

module _ {ℓ} {A : Type ℓ} where
  unfoldable pub pure : A → Service A
  pure a w = (ok a, w)

  unfoldable pub raise : Exn → Service A
  raise e w = (raised e, w)

  unfoldable pub gets : (World → A) → Service A
  gets f w = (ok (f w), w)

  respond : List Fault → (World → A × World) → World → Result A × World
  respond [] f w = let r = f w in (ok r.0, r.1)
  respond (answers ∷ s) f w = let r = f (record w { script = s }) in (ok r.0, r.1)
  respond (refuses ∷ s) f w = (raised external_error, record w { script = s })
  respond (loses ∷ s) f w = let r = f (record w { script = s }) in (raised external_error, r.1)

  -- one round trip to MySQL, Redis or the queue
  unfoldable pub external : (World → A × World) → Service A
  unfolding respond
  external f w = respond w.script f w

  recover : Result A → (Exn → Service A) → Service A
  recover (ok a) h w = (ok a, w)
  recover (raised e) h w = h e w

  -- try: m except Exception as e: h e
  unfoldable pub catch : Service A → (Exn → Service A) → Service A
  unfolding recover
  catch m h w = let (r, w') = m w in recover r h w'

module _ {ℓ κ} {A : Type ℓ} {B : Type κ} where
  continue : Result A → (A → Service B) → Service B
  continue (ok a) f w = f a w
  continue (raised e) f w = (raised e, w)

  infixl 10 ◌>>=◌
  unfoldable pub ◌>>=◌ : Service A → (A → Service B) → Service B
  unfolding continue
  ◌>>=◌ m f w = let (r, w') = m w in continue r f w'

infixl 10 ◌>>◌
abbrev pub ◌>>◌ {ℓ} : {B : Type ℓ} → Service (Unit {0}) → Service B → Service B
m >> k = m >>= λ _. k

-- a call that returns nothing
abbrev pub send_off : (World → World) → Service (Unit {0})
send_off f = external (λ w. (tt, f w))

-- try: m except Exception: pass
abbrev pub quietly : Service (Unit {0}) → Service (Unit {0})
quietly m = catch m (λ _. pure tt)

-- try: m; True, and except Exception: False
abbrev pub attempt : Service (Unit {0}) → Service Bool
attempt m = catch (m >>= λ _. pure true) (λ _. pure false)

-- if b: m
abbrev pub when : Bool → Service (Unit {0}) → Service (Unit {0})
when b m = if b then m else pure tt
