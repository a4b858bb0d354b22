-- ===== src/Submit/Joining.antt =====
-- app/services/submit.py: how a queued task joins its batch; app/services/idem.py: the placeholder
-- that guards the creation of a row.
use stask_service.Prelude.{
  ℕ, Text, codes, Bool, true, false, ltb, leb, if◌then◌else◌, List, [], ◌∷◌,
}
use stask_service.Rows.{TaskData}
use stask_service.Policy.{ResolvedPolicy}
use stask_service.Service.{
  World, Service, pure, external, send_off, quietly, when, put_at, ◌>>=◌, ◌>>◌,
}
use stask_service.Store.{now, exists, patch_data}
use stask_service.Sessions.{publish_release_batch}
use stask_service.Dispatch.{schedule}
use stask_service.Batching.Membership.{join}

abbrev pub with_due : ℕ → TaskData → TaskData
with_due due_at d = record d { batch_due_at = due_at }

-- whether the task is in a batch now
unfoldable pub join_batch : Text → Text → ResolvedPolicy → Service Bool
join_batch tid key policy =
    if ltb policy.batch 2 then (do ts ← now; schedule tid ts; pure false) else (do
      joined ← join tid key policy.batch_wait
      patch_data tid (with_due joined.1)
      when (leb policy.batch joined.0) (quietly (publish_release_batch key (codes "size")))
      pure true)

-- idem.acquire: SET NX
unfoldable pub acquire : Text → Service Bool
acquire tid = external (λ w.
    if w.placeholders tid
    then (false, w)
    else (true, record w { placeholders = put_at tid true w.placeholders }))

-- idem.release: LUA_CAS_DELETE; the only value that is ever written is "pending".
unfoldable pub release : Text → Service (Unit {0})
release tid = send_off (λ w. record w { placeholders = put_at tid false w.placeholders })

unfoldable pub settle : Text → Service (Unit {0})
settle tid = quietly (send_off (λ w. record w { placeholders = put_at tid false w.placeholders }))

unfoldable pub is_held : Text → Service Bool
is_held tid = external (λ w. (w.placeholders tid, w))

-- what the others do while this one sleeps
abbrev sleep : (World → World) → Service (Unit {0})
sleep others = λ w. pure tt (others w)

-- idem.wait_row: one entry of the list for each sleep before the time is up
unfoldable pub wait_row : List (World → World) → Text → Service Bool
wait_row [] tid = exists tid
wait_row (others ∷ rounds) tid =
    let again = wait_row rounds tid in
    (do
      found ← exists tid
      if found
          then pure true
          else (do held ← is_held tid; if held then (do sleep others; again) else exists tid))
