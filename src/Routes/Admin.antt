-- ===== src/Routes/Admin.antt =====
-- app/routers/admin.py and app/deps/admin.py: the routes of an operator that change something.
pub mod Growth
use stask_service.Prelude.{
  ℕ, Text, codes, text_eq, strip, lower, Bool, true, false, not, ◌&&◌, ◌||◌, if◌then◌else◌, Option,
  none, some, List, [], ◌∷◌,
}
use stask_service.Schemas.{active, is_among}
use stask_service.Rows.{Row}
use stask_service.Policy.{Fields}
use stask_service.Service.{World, Service, http, pure, raise, ◌>>=◌, ◌>>◌}
use stask_service.Store.{get_meta}
use stask_service.Sessions.{publish_execute}
use stask_service.Gate.{is_blank}
use stask_service.Admission.Requests.{Headers}
use stask_service.Dynconf
use stask_service.Dynconf.{Cache, View, set_many}
use stask_service.Workers.{Job, stale, overdue, slots, results, body_of}
use stask_service.Routes.{header, or_empty, partition}

-- the key that the request brings
provided : Headers → Text
provided headers =
    let own = strip (or_empty (header (codes "x-admin-key") headers)) in
    let p = partition (or_empty (header (codes "authorization") headers)) in
    if not (is_blank own)
    then own
    else if text_eq (lower p.0) (codes "bearer")
    then strip p.1
    else []

unfoldable pub require_admin : Text → Headers → Service (Unit {0})
unfolding provided
require_admin admin_key headers =
    if is_blank (strip admin_key)
    then raise (http 404)
    else if not (is_blank (provided headers)) && text_eq (provided headers) (strip admin_key)
    then pure tt
    else raise (http 401)

requeue_found : Text → Option Row → Service (Unit {0})
requeue_found tid none = raise (http 404)
requeue_found tid (some row) =
    if is_among row.status active then publish_execute tid else raise (http 409)

module _ (admin_key : Text) (headers : Headers) where
  unfoldable pub requeue : Text → Service (Unit {0})
  unfolding requeue_found
  requeue tid = do require_admin admin_key headers; row ← get_meta tid; requeue_found tid row

  -- `merge` is the mode; a ValueError is a 400 already
  unfoldable pub write_config : Dynconf.Libraries → Bool → Fields → Cache → Service View
  write_config lib merge updates c = do
    require_admin admin_key headers
    set_many lib merge updates c

  unfoldable pub reset_config : Dynconf.Libraries → List Text → Cache → Service View
  reset_config lib keys c = do require_admin admin_key headers; Dynconf.reset lib keys c

  job_named : Text → Option Job
  job_named name =
      if text_eq name (codes "stale")
      then some stale
      else if text_eq name (codes "overdue")
      then some overdue
      else if text_eq name (codes "slots")
      then some slots
      else if text_eq name (codes "purge")
      then some results
      else none

  run_named : Option Job → Service (Unit {0})
  run_named none = raise (http 404)
  run_named (some job) = body_of job

  unfoldable pub run_job : Text → Service (Unit {0})
  unfolding job_named run_named
  run_job name = do require_admin admin_key headers; run_named (job_named name)
