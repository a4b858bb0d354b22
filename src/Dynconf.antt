-- ===== src/Dynconf.antt =====
-- app/services/dynconf.py: the settings that can be changed while the service runs, their table,
-- their check, and the hash of the values that override the environment. The cache of a process
-- is handed from one call to the next, a monotonic clock being the clock of the world.
pub mod Ranges
pub mod Writes
pub mod Merge
pub mod Atomic
pub mod Growth
use stask_service.Prelude.{
  ℕ, ◌+◌, ◌*◌, Text, codes, text_eq, strip, lower, Bool, true, false, not, ltb, leb, ◌&&◌, ◌||◌,
  ◌==◌, if◌then◌else◌, Option, none, some, List, [], ◌∷◌,
}
use stask_service.Prelude.Int.{ℤ, pos, negsuc}
use stask_service.Policy
use stask_service.Policy.{
  Json, boolean, number, text, array, object, Fields, end, field, Table, Checked, valid, invalid,
}
use stask_service.Policy.Validate.{validate, put_entry}
use stask_service.Service.{
  World, Service, Exn, http, Result, ok, raised, pure, raise, gets, external, catch, send_off,
  ◌>>=◌, ◌>>◌,
}

-- No setting is a `float` or a `str`.
pub data Kind : Type 0 where
  int : ℕ → ℕ → Kind  -- the minimum and the maximum
  bool json : Kind

pub data Value : Type 0 where
  whole : ℕ → Value
  switch : Bool → Value
  policies : Table → Value

abbrev pub Values : Type 0
Values = List (Text × Value)

abbrev pub megabyte : ℕ
megabyte = 1048576

abbrev pub mutable : List (Text × Kind)
mutable =
    (codes "max_slots", int 1 10000)
    ∷ (codes "slot_ttl_seconds", int 60 86400)
    ∷ (codes "rate_limit", int 0 100000)
    ∷ (codes "rate_limit_window_seconds", int 1 3600)
    ∷ (codes "worker_timeout", int 5 1800)
    ∷ (codes "retry_max", int 0 10)
    ∷ (codes "retry_max_connect", int 0 10)
    ∷ (codes "dispatch_lock_margin_seconds", int 5 600)
    ∷ (codes "body_max_bytes", int 1024 (100 * megabyte))
    ∷ (codes "response_max_bytes", int 1024 (100 * megabyte))
    ∷ (codes "plain_max_bytes", int 0 (16 * megabyte))
    ∷ (codes "poll_wait_max_seconds", int 0 300)
    ∷ (codes "task_max_lifetime_seconds", int 300 72000)
    ∷ (codes "sweep_batch_limit", int 1 1000)
    ∷ (codes "result_ttl_seconds", int 60 2592000)
    ∷ (codes "batch_release_concurrency", int 1 64)
    ∷ (codes "batch_backoff_max_seconds", int 10 3600)
    ∷ (codes "max_batch_wait_seconds", int 1 3600)
    ∷ (codes "model_policies", json)
    ∷ (codes "max_delay_seconds", int 0 43200)
    ∷ (codes "sweep_enabled", bool)
    ∷ (codes "batch_enabled", bool)
    ∷ []

-- `dict.get(key)`
unfoldable pub find {ℓ} : {A : Type ℓ} → Text → List (Text × A) → Option A
find key [] = none
find key ((k, a) ∷ xs) = if text_eq k key then some a else find key xs

-- `d[key] = a`
unfoldable pub put {ℓ} : {A : Type ℓ} → Text → A → List (Text × A) → List (Text × A)
put key a [] = (key, a) ∷ []
put key a ((k, b) ∷ xs) =
    let rest = put key a xs in if text_eq k key then (k, a) ∷ xs else (k, b) ∷ rest

unfoldable pub or_else {ℓ} : {A : Type ℓ} → A → Option A → A
or_else d none = d
or_else d (some a) = a

-- The standard library: `json.loads`, `none` being a ValueError, `json.dumps`, and `int(float(x))`
-- of a text, of a real number, and of an integer that a double may not hold. `env` is the object
-- `settings`, and `ttl` its `sk_session_ttl_seconds`.
pub record Libraries : Type 0 where
  pub loads : Text → Option Json
  pub dumps : Value → Text
  pub int_of_float : Json → Result ℤ
  pub env : Text → Value
  pub ttl : ℕ

-- A ValueError is the 400 that the admin's route makes of it; any other exception is a 500.
abbrev pub value_error : Exn
value_error = http 400

abbrev pub type_error : Exn
type_error = http 500

in_range : ℕ → ℕ → Result ℤ → Result Value
in_range low high (ok (pos n)) =
    if leb low n && leb n high then ok (whole n) else raised value_error
in_range low high (ok (negsuc n)) = raised value_error
in_range low high (raised e) = raised e

-- the integers that `float` does not round
is_exact : ℤ → Bool
is_exact (pos n) = leb n 9007199254740992
is_exact (negsuc n) = ltb n 9007199254740992

-- `int(float(raw))`
to_int : Libraries → Json → Result ℤ
unfolding is_exact
to_int lib (number z) = if is_exact z then ok z else lib.int_of_float (number z)
to_int lib (boolean b) = ok (pos (if b then 1 else 0))
to_int lib (text s) = lib.int_of_float (text s)
to_int lib Policy.real = lib.int_of_float Policy.real
to_int lib _ = raised type_error

is_one_of : Text → List Text → Bool
is_one_of s [] = false
is_one_of s (t ∷ ts) = text_eq t s || is_one_of s ts

bool_of_text : Text → Result Value
unfolding is_one_of
bool_of_text s =
    if is_one_of s (codes "1" ∷ codes "true" ∷ codes "yes" ∷ codes "on" ∷ [])
    then ok (switch true)
    else if is_one_of s (codes "0" ∷ codes "false" ∷ codes "no" ∷ codes "off" ∷ [])
    then ok (switch false)
    else raised value_error

to_bool : Json → Result Value
unfolding bool_of_text strip lower
to_bool (boolean b) = ok (switch b)
to_bool (text s) = bool_of_text (lower (strip s))
to_bool (number (pos n)) =
    if n == 1 then ok (switch true) else if n == 0 then ok (switch false) else raised value_error
to_bool _ = raised value_error

of_checked : Checked Table → Result Value
of_checked (valid t) = ok (policies t)
of_checked invalid = raised value_error

of_loaded : Libraries → Option Json → Result Value
unfolding of_checked
of_loaded lib none = raised value_error
of_loaded lib (some raw) = of_checked (validate lib.loads lib.ttl raw)

to_policies : Libraries → Json → Result Value
unfolding of_checked of_loaded
to_policies lib Policy.null = ok (policies [])
to_policies lib (text []) = ok (policies [])
to_policies lib (text (c ∷ s)) = of_loaded lib (lib.loads (c ∷ s))
to_policies lib raw = of_checked (validate lib.loads lib.ttl raw)

unfoldable pub coerce : Libraries → Kind → Json → Result Value
unfolding in_range to_int to_bool to_policies
coerce lib (int low high) raw = in_range low high (to_int lib raw)
coerce lib bool raw = to_bool raw
coerce lib json raw = to_policies lib raw

-- `spec.coerce(json.loads(value))`
unfoldable pub coerce_stored : Libraries → Kind → Text → Result Value
coerce_stored lib kind value = elim (lib.loads value) [
  | none ↦ raised value_error
  | some raw ↦ coerce lib kind raw
]

-- `_cache` and `_cache_at`
pub record Cache : Type 0 where
  pub values : Values
  pub at : ℕ

keep_valid : Text → Result Value → Values → Values
keep_valid key (ok v) rest = (key, v) ∷ rest
keep_valid key (raised e) rest = rest

parse_one : Libraries → Text → Text → Option Kind → Values → Values
unfolding keep_valid
parse_one lib key value none rest = rest
parse_one lib key value (some kind) rest = keep_valid key (coerce_stored lib kind value) rest

-- keys outside the table and values that are not valid are left out
unfoldable pub parse : Libraries → List (Text × Text) → Values
unfolding parse_one
parse lib [] = []
parse lib ((key, value) ∷ raw) = parse_one lib key value (find key mutable) (parse lib raw)

reload : Libraries → Service Cache
reload lib =
    catch (external (λ w. (record { values = parse lib w.overrides; at = w.clock }, w)))
      (λ _. gets (λ w. record { values = []; at = w.clock }))

-- `_load`: the cache that it leaves, whose values it returns
unfoldable pub load : Libraries → Cache → Service Cache
unfolding reload
load lib c w = (if ltb w.clock (c.at + 5) then pure c else reload lib) w

-- a key that cannot be changed is read from the environment
get_known : Libraries → Text → Cache → Option Kind → Service (Value × Cache)
get_known lib key c none = pure (lib.env key, c)
get_known lib key c (some kind) = do
  c' ← load lib c
  pure (or_else (lib.env key) (find key c'.values), c')

unfoldable pub get : Libraries → Text → Cache → Service (Value × Cache)
unfolding get_known
get lib key c = get_known lib key c (find key mutable)

unfoldable pub get_model_policies : Libraries → Cache → Service (Value × Cache)
get_model_policies lib c = get lib (codes "model_policies") c

abbrev pub is_json : Kind → Bool
is_json json = true
is_json _ = false

-- `_SNAPSHOT_KEYS`
abbrev pub setting_keys : List (Text × Kind) → List Text
setting_keys [] = []
setting_keys ((key, json) ∷ specs) = setting_keys specs
setting_keys ((key, bool) ∷ specs) = key ∷ setting_keys specs
setting_keys ((key, int low high) ∷ specs) = key ∷ setting_keys specs

-- those keys, with their values
unfoldable pub snapshot_of : Libraries → Values → List (Text × Kind) → Values
snapshot_of lib overrides [] = []
snapshot_of lib overrides ((key, kind) ∷ specs) =
    let rest = snapshot_of lib overrides specs in
    if is_json kind then rest else (key, or_else (lib.env key) (find key overrides)) ∷ rest

-- A RuntimeConfig is the list of its fields.
unfoldable pub get_runtime_config : Libraries → Cache → Service (Values × Cache)
get_runtime_config lib c = do c' ← load lib c; pure (snapshot_of lib c'.values mutable, c')

-- `_effective_value` of a key, `none` where the hash cannot be read
effective_in : Libraries → Text → Kind → Option Text → Value
effective_in lib key kind none = lib.env key
effective_in lib key kind (some value) = elim (coerce_stored lib kind value) [
  | ok v ↦ v
  | raised e ↦ lib.env key
]

unfoldable pub effective_value : Libraries → Text → Kind → Service Value
unfolding effective_in
effective_value lib key kind =
    catch
      (external (λ w. (w.overrides, w)) >>= λ raw. pure (effective_in lib key kind (find key raw)))
      (λ _. pure (lib.env key))

-- `{**current, **new}`
unfoldable pub merged : Table → Table → Table
merged current [] = current
merged current ((k, e) ∷ new) = merged (put_entry k e current) new

unfoldable pub merge_values : Value → Value → Value
merge_values (policies current) (policies new) = policies (merged current new)
merge_values current new = new

unfoldable pub merge_mapping : Libraries → Text → Kind → Value → Service Value
merge_mapping lib key kind new = do
  current ← effective_value lib key kind
  pure (merge_values current new)

of_result : Result Value → Service Value
of_result (ok v) = pure v
of_result (raised e) = raise e

-- the value that is stored for one update, `mode` being `merge`
checked_update : Libraries → Bool → Text → Json → Option Kind → Service Value
unfolding of_result
checked_update lib merge key raw none = raise value_error
checked_update lib merge key raw (some kind) = do
  value ← of_result (coerce lib kind raw)
  if merge && is_json kind then merge_mapping lib key kind value else pure value

unfoldable pub payload_of :
    Libraries → Bool → Fields → List (Text × Text) → Service (List (Text × Text))
unfolding checked_update
payload_of lib merge end out = pure out
payload_of lib merge (field key raw fs) out = do
  value ← checked_update lib merge key raw (find key mutable)
  payload_of lib merge fs (put key (lib.dumps value) out)

-- HSET with a mapping
unfoldable pub put_all : List (Text × Text) → List (Text × Text) → List (Text × Text)
put_all [] hash = hash
put_all ((k, v) ∷ payload) hash = put_all payload (put k v hash)

unfoldable pub invalidated : Cache → Cache
invalidated c = record c { at = 0 }

-- `snapshot`: each setting with its value and whether it is overridden
view_item : Libraries → Text → Option Value → Text × Value × Bool
view_item lib key none = (key, lib.env key, false)
view_item lib key (some v) = (key, v, true)

view_of : Libraries → Values → List (Text × Kind) → List (Text × Value × Bool)
unfolding view_item
view_of lib overrides [] = []
view_of lib overrides ((key, kind) ∷ specs) =
    view_item lib key (find key overrides) ∷ view_of lib overrides specs

abbrev pub View : Type 0
View = List (Text × Value × Bool) × Cache

unfoldable pub snapshot : Libraries → Cache → Service View
unfolding view_of
snapshot lib c = do c' ← load lib c; pure (view_of lib c'.values mutable, c')

unfoldable pub set_many : Libraries → Bool → Fields → Cache → Service View
set_many lib merge end c = snapshot lib c
set_many lib merge (field key raw fs) c = do
  payload ← payload_of lib merge (field key raw fs) []
  send_off (λ w. record w { overrides = put_all payload w.overrides })
  snapshot lib (invalidated c)

without : Text → List (Text × Text) → List (Text × Text)
without key [] = []
without key ((k, v) ∷ hash) =
    let rest = without key hash in if text_eq k key then rest else (k, v) ∷ rest

without_all : List Text → List (Text × Text) → List (Text × Text)
unfolding without
without_all [] hash = hash
without_all (k ∷ keys) hash = without_all keys (without k hash)

are_known : List Text → Bool
are_known [] = true
are_known (k ∷ keys) = elim (find k mutable) [ none ↦ false | some _ ↦ are_known keys ]

-- an empty list is `None`
unfoldable pub reset : Libraries → List Text → Cache → Service View
unfolding without_all are_known
reset lib [] c = do send_off (λ w. record w { overrides = [] }); snapshot lib (invalidated c)
reset lib (k ∷ keys) c =
    if are_known (k ∷ keys)
    then (do
      send_off (λ w. record w { overrides = without_all (k ∷ keys) w.overrides })
      snapshot lib (invalidated c))
    else raise value_error
