-- ===== src/Execute/Growth.antt =====
-- An execution moves rows along the state machine only, however its calls end.
use stask_service.Prelude.{ℕ, Text, false, Option, none, some, List, [], refl, arith}
use stask_service.Schemas.{Status, in_progress, success, failure, pending, active}
use stask_service.Rows.{Row, TaskData}
use stask_service.Service.{World, pure}
use stask_service.Service.Keeps.{Keeps, Keeps-pure, Keeps-catch, keeps_rules}
use stask_service.Store.Growth.{
  Grows, Grows-refl, GrownFrom, Moves, pending-Moves, active-Moves, external-Grown, grown_rules,
}
use stask_service.Gate.Growth.{gate_rules}
use stask_service.Sessions.Growth.{session_rules}
use stask_service.Codec.{Coders}
use stask_service.Execute.{acquire_dispatch_lock, with_session, run_row, run_found, run}
use stask_service.Execute.Kept.{with_session-Kept}
use stask_service.Execute.Settle.{finalize}
use stask_service.Execute.Upstream.{request}

pending_running : Moves pending in_progress
pending_running = pending-Moves in_progress refl

active_success : Moves active success
active_success = active-Moves success refl refl

active_failure : Moves active failure
active_failure = active-Moves failure refl refl

module _ (rs : List Row) where
  pub acquire_dispatch_lock-Grown :
      (tid : Text) (n : ℕ) → Keeps (GrownFrom rs) (acquire_dispatch_lock tid n)
  unfolding acquire_dispatch_lock
  acquire_dispatch_lock-Grown tid n =
      Keeps-catch _ _ (external-Grown rs _ (λ v. ground arith)) (λ e. Keeps-pure false)

  request-Grown : (tid : Text) → Keeps (GrownFrom rs) (request tid)
  unfolding request pure
  request-Grown tid = record { at = λ w h. h }

  pub finalize-Grown :
      (tid : Text) (d : TaskData) (s : Status) (f : TaskData → TaskData) (reason : Text)
      (url : Option Text)
      → Moves active s
      → Keeps (GrownFrom rs) (finalize tid d s f reason url)
  unfolding finalize
  finalize-Grown tid d s f reason url moves =
      search (keeps_rules, grown_rules, gate_rules, session_rules, moves) depth 12

  module _ (coders : Coders) (p : Text → Text) (u : Text → Text → Text) (tid : Text) where
    with_session-Grown :
        (d : TaskData) (o : Option Text) → Keeps (GrownFrom rs) (with_session coders p u tid d o)
    with_session-Grown d o =
        with_session-Kept (GrownFrom rs) coders p u tid d (request-Grown tid)
          (λ f reason. finalize-Grown tid d failure f reason none active_failure)
          (λ f url. finalize-Grown tid d success f [] url active_success) o

    run_row-Grown : (row : Row) → Keeps (GrownFrom rs) (run_row coders p u tid row)
    unfolding run_row
    run_row-Grown row =
        search
          (
            keeps_rules, grown_rules, session_rules, pending_running, acquire_dispatch_lock-Grown,
            with_session-Grown,
          )
          depth 12

    run_found-Grown : (o : Option Row) → Keeps (GrownFrom rs) (run_found coders p u tid o)
    unfolding run_found
    run_found-Grown none = Keeps-pure _
    run_found-Grown (some row) = run_row-Grown row

    pub run-Grown : Keeps (GrownFrom rs) (run coders p u tid)
    unfolding run
    run-Grown = search (keeps_rules, grown_rules, run_found-Grown) depth 12

-- However its calls and its HTTP requests end, an execution loses no row and moves rows along the
-- state machine only.
run-Grows :
    (coders : Coders) (parse_for_store : Text → Text) (upstream_error_detail : Text → Text → Text)
    (tid : Text) (w : World)
    → Grows w.rows (run coders parse_for_store upstream_error_detail tid w).1.rows
run-Grows coders p u tid w = (run-Grown w.rows coders p u tid).at w (Grows-refl w.rows)
