-- ===== src/Tests/Tokens.antt =====
-- A token that passes the check, and one that Redis knows.
use stask_service.Prelude.{ℕ, Text, codes, true, false, some, ◌≡◌}
use stask_service.Prelude.Int.{pos, negsuc}
use stask_service.Service
use stask_service.Service.{World, Credential}
use stask_service.Upstream.{authenticate, check, token_key}
use stask_service.Upstream.Caches.{AreSound, IsVouched, authenticate-AreSound}
use stask_service.Tests.Worlds.{empty_world}

abbrev some_credential : Credential
some_credential = record {
  status = 1;
  expired_time = negsuc 0;
  user_status = 1;
  unlimited_quota = true;
  remain_quota = pos 0;
  user_quota = pos 9;
  user_id = 7;
}

abbrev token_world : World
token_world = record empty_world { credentials = λ k. some some_credential }

-- the one user that there is
abbrev IsSeven : Text → ℕ → Type 0
IsSeven h user = user ≡ 7

seventh :
    (user : ℕ) → check (some some_credential) 200 ≡ Service.ok user → IsSeven (codes "aa") user
unfolding check stask_service.Upstream.validate
seventh user h = cc

authenticate-AreSound_example :
    IsVouched IsSeven (codes "aa") (authenticate false (codes "sk-a-b") (codes "aa") token_world).0
    × AreSound IsSeven (authenticate false (codes "sk-a-b") (codes "aa") token_world).1
authenticate-AreSound_example =
    authenticate-AreSound IsSeven (codes "sk-a-b") (codes "aa") token_world seventh (tt, λ h. tt)
