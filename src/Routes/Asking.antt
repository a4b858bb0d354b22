-- ===== src/Routes/Asking.antt =====
-- app/routers/proxy.py, `get_task` and `cancel_task`.
pub mod Growth
use stask_service.Prelude.{ℕ, Text, Bool, true, false, ltb, if◌then◌else◌, Option, none, some, List}
use stask_service.Service.{World, Service, http, pure, raise, gets, ◌>>=◌, ◌>>◌}
use stask_service.Admission.Requests.{extract_task_id}
use stask_service.Flow.{view, cancel}
use stask_service.Flow.Replay.{Response}
use stask_service.Routes.{Request, Libraries, normalize_path}

-- Here nothing catches an AdmissionError, so that a path with two dots is a 500.
task_in : Option Text → Service Text
task_in none = raise (http 500)
task_in (some path) = elim (extract_task_id path) [ none ↦ raise (http 404) | some tid ↦ pure tid ]

unfoldable pub task_of : Request → Service Text
unfolding task_in
task_of q = task_in (normalize_path q.path)

-- `rounds` are what happens in each sleep of the long poll.
unfoldable pub get_task : Libraries → List (World → World) → Request → Service Response
get_task lib rounds q = do
  tid ← task_of q
  most ← gets (λ w. w.config.poll_wait_max_seconds)
  if ltb most q.wait then raise (http 422) else view lib.coders lib.set_status rounds tid

unfoldable pub cancel_task : Request → Service ℕ
cancel_task q = do tid ← task_of q; cancel tid
