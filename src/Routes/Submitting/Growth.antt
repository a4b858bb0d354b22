-- ===== src/Routes/Submitting/Growth.antt =====
-- A submission through its route moves rows along the state machine only, as long as what happens in
-- its sleeps does.
use stask_service.Prelude.{ℕ, Text, true, Option, none, some, List, refl}
use stask_service.Schemas.{SubmitPlan}
use stask_service.Rows.{Row}
use stask_service.Service.{
  World, Exn, http, external_error, submit_conflict, decode_error, slot_exhausted,
}
use stask_service.Service.Keeps.{
  Keeps, Keeps-pure, Keeps-raise, Keeps-bind, Keeps-catch, Keeps-if, Keeps-gets, keeps_rules,
}
use stask_service.Store.Growth.{GrownFrom, OthersKeep, external-Grown, get_meta-Grown}
use stask_service.Admission.{Admitted, admitted, refused}
use stask_service.Schedule
use stask_service.Batching.Params
use stask_service.Batching.Params.{Overrides}
use stask_service.Upstream.Growth.{authenticate-Grown}
use stask_service.Submit.{Submitted}
use stask_service.Submit.Growth.{submit-Grown}
use stask_service.Routes.{Request, Libraries, Settings, Draws}
use stask_service.Routes.Limits.{check}
use stask_service.Routes.Submitting.{
  of_admitted, or_http, of_schedule, of_overrides, submit_error, replayed_row, answer, scheduled_at,
  overrides_of, plan_of, submit_task,
}

module _ (rs : List Row) where
  check-Grown : (draws : Draws) (subject : Text) → Keeps (GrownFrom rs) (check draws subject)
  unfolding check
  check-Grown draws subject = Keeps-bind _ _ (Keeps-gets _) λ config.
      Keeps-if _ _ _ (Keeps-pure tt) (
        Keeps-bind _ _ (Keeps-catch _ _ (external-Grown rs _ (λ v. refl)) (λ e. Keeps-pure true))
          (λ allowed. Keeps-if allowed _ _ (Keeps-pure tt) (Keeps-raise _)))

  of_admitted-Grown : {A : Type 0} (a : Admitted A) → Keeps (GrownFrom rs) (of_admitted a)
  unfolding of_admitted
  of_admitted-Grown (admitted a) = Keeps-pure a
  of_admitted-Grown (refused status code) = Keeps-raise _

  or_http-Grown {ℓ} :
      {A : Type ℓ} (status : ℕ) (o : Option A) → Keeps (GrownFrom rs) (or_http status o)
  unfolding or_http
  or_http-Grown status none = Keeps-raise _
  or_http-Grown status (some a) = Keeps-pure a

  of_schedule-Grown : (p : Schedule.Parsed ℕ) → Keeps (GrownFrom rs) (of_schedule p)
  unfolding of_schedule
  of_schedule-Grown (Schedule.parsed n) = Keeps-pure n
  of_schedule-Grown (Schedule.rejected c h) = Keeps-raise _
  of_schedule-Grown Schedule.value_error = Keeps-raise _

  of_overrides-Grown : (p : Params.Parsed Overrides) → Keeps (GrownFrom rs) (of_overrides p)
  unfolding of_overrides
  of_overrides-Grown (Params.parsed o) = Keeps-pure o
  of_overrides-Grown (Params.rejected c h) = Keeps-raise _

  submit_error-Grown : (e : Exn) → Keeps (GrownFrom rs) (submit_error e)
  unfolding submit_error
  submit_error-Grown external_error = Keeps-raise _
  submit_error-Grown submit_conflict = Keeps-raise _
  submit_error-Grown decode_error = Keeps-raise _
  submit_error-Grown (http status) = Keeps-raise _
  submit_error-Grown (slot_exhausted limit layer) = Keeps-raise _

  replayed_row-Grown :
      (path : Text) (result : Submitted) (ts : ℕ) (o : Option Row)
      → Keeps (GrownFrom rs) (replayed_row path result ts o)
  unfolding replayed_row
  replayed_row-Grown path result ts none = Keeps-raise _
  replayed_row-Grown path result ts (some row) = Keeps-pure _

  answer-Grown :
      (path : Text) (plan : SubmitPlan) (result : Submitted)
      → Keeps (GrownFrom rs) (answer path plan result)
  unfolding answer
  answer-Grown path plan result = Keeps-bind _ _ (Keeps-gets _) λ ts.
      Keeps-if _ _ _
        (Keeps-bind _ _ (get_meta-Grown rs result.task_id) (replayed_row-Grown path result ts))
        (Keeps-pure _)

  module _ (lib : Libraries) where
    pub submit_task-Grown :
        (s : Settings) (others : List (World → World)) (draws : Draws) (q : Request)
        → OthersKeep rs others
        → Keeps (GrownFrom rs) (submit_task lib s others draws q)
    unfolding submit_task scheduled_at overrides_of
    submit_task-Grown s others draws q h =
        Keeps-bind _ _ (search (keeps_rules, or_http-Grown, of_admitted-Grown) depth 12) λ target.
          Keeps-bind _ _ (or_http-Grown 401 _) λ caller.
            Keeps-bind _ _ (check-Grown draws caller.token_hash) λ x.
              Keeps-bind _ _ (authenticate-Grown rs s.generic caller.raw_token caller.token_hash)
                λ user. Keeps-bind _ _ (Keeps-gets _) λ w.
                  Keeps-bind _ _ (of_schedule-Grown _) λ moment.
                    Keeps-bind _ _ (of_overrides-Grown _) λ overrides.
                      Keeps-if _ _ _ (Keeps-raise _) (
                        Keeps-bind _ _
                          (Keeps-catch _ _ (submit-Grown rs others caller.raw_token _ h)
                            submit_error-Grown)
                          (λ result.
                            answer-Grown target.0
                              (plan_of lib s draws q caller user target moment overrides w) result))
