-- ===== src/Routes/Admin/Growth.antt =====
-- The routes of an operator move rows along the state machine only.
use stask_service.Prelude.{Text, Bool, Option, none, some, List}
use stask_service.Rows.{Row}
use stask_service.Policy.{Fields}
use stask_service.Service.Keeps.{Keeps, Keeps-pure, Keeps-raise, Keeps-bind, Keeps-if}
use stask_service.Store.Growth.{GrownFrom, get_meta-Grown}
use stask_service.Sessions.Growth.{publish_execute-Grown}
use stask_service.Admission.Requests.{Headers}
use stask_service.Dynconf
use stask_service.Dynconf.{Cache}
use stask_service.Dynconf.Growth.{set_many-Grown, reset-Grown}
use stask_service.Workers.{Job}
use stask_service.Workers.Growth.{body_of-Grown}
use stask_service.Routes.Admin.{
  require_admin, requeue_found, requeue, write_config, reset_config, run_named, run_job,
}

module _ (rs : List Row) where
  require_admin-Grown :
      (admin_key : Text) (headers : Headers)
      → Keeps (GrownFrom rs) (require_admin admin_key headers)
  unfolding require_admin
  require_admin-Grown admin_key headers =
      Keeps-if _ _ _ (Keeps-raise _) (Keeps-if _ _ _ (Keeps-pure tt) (Keeps-raise _))

  requeue_found-Grown : (tid : Text) (o : Option Row) → Keeps (GrownFrom rs) (requeue_found tid o)
  unfolding requeue_found
  requeue_found-Grown tid none = Keeps-raise _
  requeue_found-Grown tid (some row) = Keeps-if _ _ _ (publish_execute-Grown rs tid) (Keeps-raise _)

  module _ (admin_key : Text) (headers : Headers) where
    pub requeue-Grown : (tid : Text) → Keeps (GrownFrom rs) (requeue admin_key headers tid)
    unfolding requeue
    requeue-Grown tid =
        Keeps-bind _ _ (require_admin-Grown admin_key headers)
          λ x. Keeps-bind _ _ (get_meta-Grown rs tid) (requeue_found-Grown tid)

    pub write_config-Grown :
        (lib : Dynconf.Libraries) (merge : Bool) (updates : Fields) (c : Cache)
        → Keeps (GrownFrom rs) (write_config admin_key headers lib merge updates c)
    unfolding write_config
    write_config-Grown lib merge updates c =
        Keeps-bind _ _ (require_admin-Grown admin_key headers)
          (λ x. set_many-Grown rs lib merge updates c)

    pub reset_config-Grown :
        (lib : Dynconf.Libraries) (keys : List Text) (c : Cache)
        → Keeps (GrownFrom rs) (reset_config admin_key headers lib keys c)
    unfolding reset_config
    reset_config-Grown lib keys c =
        Keeps-bind _ _ (require_admin-Grown admin_key headers) (λ x. reset-Grown rs lib keys c)

    run_named-Grown : (o : Option Job) → Keeps (GrownFrom rs) (run_named admin_key headers o)
    unfolding run_named
    run_named-Grown none = Keeps-raise _
    run_named-Grown (some job) = body_of-Grown rs job

    pub run_job-Grown : (name : Text) → Keeps (GrownFrom rs) (run_job admin_key headers name)
    unfolding run_job
    run_job-Grown name =
        Keeps-bind _ _ (require_admin-Grown admin_key headers) (λ x. run_named-Grown _)
