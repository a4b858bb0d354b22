-- ===== src/Execute/Upstream.antt =====
-- app/services/execute.py: the call upstream with its retries. A reply tells how one HTTP request
-- ended; where none is left the transport is broken.
use stask_service.Prelude.{
  ℕ, zero, suc, ◌+◌, Text, codes, leb, if◌then◌else◌, Option, none, some, List, [], ◌∷◌, ◌++◌,
}
use stask_service.Schemas.{failure}
use stask_service.Rows.{TaskData}
use stask_service.Service.{Service, Reply, connect_error, broken, response, pure, ◌>>=◌, ◌>>◌}
use stask_service.Codec.{Coders}
use stask_service.Execute.Settle.{
  Outcome, unreachable, timeout, finalize, no_status, settle_response,
}

unfoldable pub next_reply : List Reply → Reply × List Reply
next_reply [] = (broken (codes "ReadError"), [])
next_reply (x ∷ xs) = (x, xs)

-- client.request
unfoldable pub request : Text → Service Reply
unfolding next_reply
request tid w =
    let r = next_reply w.replies in
    pure r.0 (record w { replies = r.1; calls = w.calls ++ tid ∷ [] })

module _ (coders : Coders) (parse_for_store : Text → Text)
    (upstream_error_detail : Text → Text → Text) (tid : Text) (d : TaskData) where
  unfoldable pub give_up : Text → Outcome → Service Outcome
  give_up name o = do
    finalize tid d failure no_status (codes "upstream unreachable: " ++ name) none
    pure o

  unfoldable pub break_off : Text → Outcome → Service Outcome
  break_off name o = do
    finalize tid d failure no_status (codes "upstream timeout/broken: " ++ name) none
    pure o

  -- What follows one reply: `on_connect` and `on_5xx` are the next rounds of the loop, where an
  -- attempt of that kind is left.
  unfoldable pub after_reply :
      Option (Service Outcome) → Option (Service Outcome) → ℕ → Reply → Service Outcome
  unfolding give_up break_off
  after_reply on_connect on_5xx attempt (connect_error name) = elim on_connect [
    | none ↦ give_up name (record { stage = unreachable; attempts = attempt })
    | some again ↦ again
  ]
  after_reply on_connect on_5xx attempt (broken name) =
      break_off name (record { stage = timeout; attempts = attempt })
  after_reply on_connect on_5xx attempt (response status content_type raw) =
      let settled =
        settle_response coders parse_for_store upstream_error_detail tid d status content_type raw
          attempt in
      if leb 500 status then elim on_5xx [ none ↦ settled | some again ↦ again ] else settled

  -- The loop with the attempts that are left: for connection errors, and for answers from 500 on.
  -- Every further round uses up one of them.
  unfoldable pub call_upstream : ℕ → ℕ → ℕ → Service Outcome
  unfolding after_reply
  call_upstream zero zero attempt = do
    reply ← request tid
    after_reply none none (attempt + 1) reply
  call_upstream (suc c) zero attempt =
      let again = call_upstream c 0 (attempt + 1) in
      request tid >>= λ reply. after_reply (some again) none (attempt + 1) reply
  call_upstream zero (suc a) attempt =
      let again = call_upstream zero a (attempt + 1) in
      request tid >>= λ reply. after_reply none (some again) (attempt + 1) reply
  call_upstream (suc c) (suc a) attempt =
      let connect_again = call_upstream c (suc a) (attempt + 1) in
      let again = call_upstream (suc c) a (attempt + 1) in
      request tid >>= λ reply. after_reply (some connect_again) (some again) (attempt + 1) reply
