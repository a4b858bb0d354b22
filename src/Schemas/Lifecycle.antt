-- ===== src/Schemas/Lifecycle.antt =====
-- The state machine of a task: QUEUED, then IN_PROGRESS, then one of three final states.
use stask_service.Prelude.{text_eq, text_eq_refl, text_eq_iff, Bool, true, false, ◌≡◌, refl, arith}
use stask_service.Schemas.{
  Status, queued, in_progress, success, failure, canceled, foreign, is_among, terminal,
}

-- The states that a task in the first may be in later. A running task is never canceled.
abbrev pub may_become : Status → Status → Bool
may_become queued (foreign s) = false
may_become queued _ = true
may_become in_progress in_progress = true
may_become in_progress success = true
may_become in_progress failure = true
may_become success success = true
may_become failure failure = true
may_become canceled canceled = true
may_become (foreign a) (foreign b) = text_eq a b
may_become _ _ = false

pub may_become_refl : (s : Status) → may_become s s ≡ true
may_become_refl (foreign s) = text_eq_refl s
may_become_refl queued = refl
may_become_refl _ = refl

pub may_become_trans :
    (s t u : Status) → may_become s t ≡ true → may_become t u ≡ true → may_become s u ≡ true
may_become_trans (foreign a) (foreign b) (foreign d) p q =
    ground (arith, text_eq_iff a b, text_eq_iff b d, text_eq_refl a)
may_become_trans queued queued u p q = ground arith
may_become_trans s t u p q = ground arith

-- A final state is never left.
pub may_become-terminal :
    (s t : Status) → is_among s terminal ≡ true → may_become s t ≡ true → t ≡ s
may_become-terminal success t h p = ground arith
may_become-terminal s t h p = ground arith
