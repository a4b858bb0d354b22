-- ===== src/Routes/Limits.antt =====
-- app/deps/ratelimit.py and LUA_RATE_LIMIT of app/redis.py: a sliding window of requests for each
-- caller.
pub mod Window
use stask_service.Prelude.{
  ℕ, ◌+◌, ◌*◌, max, Text, Bool, true, false, leb, ◌==◌, if◌then◌else◌, [], ◌∷◌, ◌++◌,
}
use stask_service.SortedSets.{SortedSet, zadd, zcard}
use stask_service.Service.{World, Service, http, put_at, pure, raise, gets, external, catch, ◌>>=◌}
use stask_service.Execute.Settle.{str_of}
use stask_service.Routes.{Draws}

-- ZREMRANGEBYSCORE from 0 to `now - window`
unfoldable pub drop_old : ℕ → ℕ → SortedSet → SortedSet
drop_old window now [] = []
drop_old window now ((m, s) ∷ z) =
    let rest = drop_old window now z in if leb (s + window) now then rest else (m, s) ∷ rest

unfoldable pub rate_limit_script : ℕ → ℕ → ℕ → ℕ → SortedSet → Bool × SortedSet
rate_limit_script now window limit member z =
    let kept = drop_old window now z in
    if leb limit (zcard kept)
    then (false, kept)
    else (true, zadd (str_of now ++ b':' ∷ str_of member) now kept)

abbrev now_ms : Draws → World → ℕ
now_ms draws w = w.clock * 1000 + draws.milliseconds

call : Draws → Text → ℕ → ℕ → World → Bool × World
unfolding rate_limit_script
call draws subject window limit w =
    let (allowed, z) =
      rate_limit_script (now_ms draws w) window limit draws.member (w.windows subject) in
    (allowed, record w { windows = put_at subject z w.windows })

-- Where Redis fails, the request goes through.
unfoldable pub check : Draws → Text → Service (Unit {0})
unfolding call
check draws subject = do
  config ← gets (λ w. w.config)
  if config.rate_limit == 0 then pure tt else (do
    allowed ←
        catch
          (external
            (call draws subject (max config.rate_limit_window_seconds 1 * 1000) config.rate_limit))
          (λ _. pure true)
    if allowed then pure tt else raise (http 429))
