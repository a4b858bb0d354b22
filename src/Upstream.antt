-- ===== src/Upstream.antt =====
-- app/services/upstream.py: the check of a token before a submission, with its two caches. An
-- AuthInfo is the number of a user.
pub mod Caches
pub mod Growth
use stask_service.Prelude.{
  ℕ, suc, ◌+◌, Text, codes, text_eq, Bool, true, false, not, ltb, leb, ◌&&◌, ◌==◌, if◌then◌else◌,
  length, Option, none, some, List, [], ◌∷◌,
}
use stask_service.Prelude.Int.{ℤ, pos, negsuc}
use stask_service.Service
use stask_service.Service.{
  World, Service, Credential, Exn, http, Result, raised, put_at, pure, raise, gets, external, catch,
  quietly, send_off, ◌>>=◌, ◌>>◌,
}

-- the lists of the process
abbrev pub Entries : Type 0
Entries = List (Text × ℕ × ℕ)

-- `raw_token.removeprefix("sk-")`
without_prefix : Text → Text
without_prefix [] = []
without_prefix (a ∷ []) = a ∷ []
without_prefix (a ∷ b ∷ []) = a ∷ b ∷ []
without_prefix (a ∷ b ∷ c ∷ s) = if a == b's' && (b == b'k' && c == b'-') then s else a ∷ b ∷ c ∷ s

-- `key.split("-", 1)[0]`
before_dash : Text → Text
before_dash [] = []
before_dash (c ∷ s) = let rest = before_dash s in if c == b'-' then [] else c ∷ rest

unfoldable pub token_key : Text → Text
unfolding without_prefix before_dash
token_key raw_token = before_dash (without_prefix raw_token)

unfoldable pub lookup : Text → Entries → Option (ℕ × ℕ)
lookup h [] = none
lookup h ((k, at, user) ∷ es) = if text_eq k h then some (at, user) else lookup h es

unfoldable pub drop : Text → Entries → Entries
drop h [] = []
drop h ((k, at, user) ∷ es) =
    let rest = drop h es in if text_eq k h then rest else (k, at, user) ∷ rest

fresh : Text → Entries → ℕ → Option (ℕ × ℕ) → Option ℕ × Entries
fresh h es now none = (none, es)
fresh h es now (some (at, user)) = if ltb (at + 5) now then (none, drop h es) else (some user, es)

-- `_local_get`: an entry lives for five seconds
unfoldable pub local_get : Text → Service (Option ℕ)
unfolding fresh
local_get h w =
    let r = fresh h w.local_auth w.clock (lookup h w.local_auth) in
    pure r.0 (record w { local_auth = r.1 })

-- `_local_put`: a dictionary of more than 10000 entries is emptied first
unfoldable pub put : Text → ℕ → ℕ → Entries → Entries
put h at user es = (h, at, user) ∷ (if ltb 10000 (length es) then [] else drop h es)

unfoldable pub local_put : Text → ℕ → Service (Unit {0})
local_put h user w = pure tt (record w { local_auth = put h w.clock user w.local_auth })

unfoldable pub redis_get : Text → Service (Option ℕ)
redis_get h = catch (external (λ w. (w.auth_cache h, w))) (λ _. pure none)

unfoldable pub redis_put : Text → ℕ → Service (Unit {0})
redis_put h user =
    quietly (send_off (λ w. record w { auth_cache = put_at h (some user) w.auth_cache }))

unfoldable pub fetch_credential : Text → Service (Option Credential)
fetch_credential raw_token = external (λ w. (w.credentials (token_key raw_token), w))

is_positive : ℤ → Bool
is_positive (pos n) = ltb 0 n
is_positive (negsuc n) = false

-- `x or -1` is not -1 and lies in the past; a zero counts as -1
has_expired : ℤ → ℕ → Bool
has_expired (pos n) now = ltb 0 n && ltb n now
has_expired (negsuc n) now = ltb 0 n

-- `_validate`: the user, or the status of an UpstreamAuthError
unfoldable pub validate : Credential → ℕ → Result ℕ
unfolding is_positive has_expired
validate c now =
    if c.status == 4
    then raised (http 402)
    else if not (c.status == 1)
    then raised (http 401)
    else if has_expired c.expired_time now
    then raised (http 401)
    else if not (c.user_status == 1)
    then raised (http 401)
    else if not c.unlimited_quota && not (is_positive c.remain_quota)
    then raised (http 402)
    else if not (is_positive c.user_quota)
    then raised (http 402)
    else Service.ok c.user_id

-- the answer of the table alone
unfoldable pub check : Option Credential → ℕ → Result ℕ
check none now = raised (http 401)
check (some c) now = validate c now

of_result : Result ℕ → Service ℕ
of_result (Service.ok user) = pure user
of_result (raised e) = raise e

-- after the lookup in the table
from_table : Text → Option Credential → Service ℕ
unfolding of_result
from_table h row = do
  ts ← gets (λ w. w.clock)
  user ← of_result (check row ts)
  local_put h user
  redis_put h user
  pure user

from_redis : Text → Text → Option ℕ → Service ℕ
unfolding from_table
from_redis raw_token h (some user) = do local_put h user; pure user
from_redis raw_token h none = do
  row ← catch (fetch_credential raw_token) (λ _. raise (http 502))
  from_table h row

from_process : Text → Text → Option ℕ → Service ℕ
unfolding from_redis
from_process raw_token h (some user) = pure user
from_process raw_token h none = do cached ← redis_get h; from_redis raw_token h cached

-- `generic` is the mode in which nothing is checked
unfoldable pub authenticate : Bool → Text → Text → Service ℕ
unfolding from_process
authenticate generic raw_token h =
    if generic then pure 0 else (do cached ← local_get h; from_process raw_token h cached)
