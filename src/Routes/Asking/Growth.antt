-- ===== src/Routes/Asking/Growth.antt =====
-- Queries and cancellations through their routes move rows along the state machine only.
use stask_service.Prelude.{Text, Option, none, some, List}
use stask_service.Rows.{Row}
use stask_service.Service.{World, http, pure, raise}
use stask_service.Service.Keeps.{Keeps, Keeps-pure, Keeps-raise, Keeps-bind, Keeps-if, Keeps-gets}
use stask_service.Store.Growth.{GrownFrom, OthersKeep}
use stask_service.Admission.Requests.{extract_task_id}
use stask_service.Flow.Growth.{view-Grown, cancel-Grown}
use stask_service.Routes.{Request, Libraries, normalize_path}
use stask_service.Routes.Asking.{task_in, task_of, get_task, cancel_task}

module _ (rs : List Row) where
  task_in-Grown : (o : Option Text) → Keeps (GrownFrom rs) (task_in o)
  unfolding task_in
  task_in-Grown none = Keeps-raise _
  task_in-Grown (some path) = chosen (extract_task_id path)
    where
      chosen :
          (o : Option Text)
          → Keeps {A = Text}
              (GrownFrom rs)
              (elim o [ none ↦ raise (http 404) | some tid ↦ pure tid ])
      chosen none = Keeps-raise _
      chosen (some tid) = Keeps-pure tid

  task_of-Grown : (q : Request) → Keeps (GrownFrom rs) (task_of q)
  unfolding task_of
  task_of-Grown q = task_in-Grown (normalize_path q.path)

  pub get_task-Grown :
      (lib : Libraries) (rounds : List (World → World)) (q : Request)
      → OthersKeep rs rounds
      → Keeps (GrownFrom rs) (get_task lib rounds q)
  unfolding get_task
  get_task-Grown lib rounds q h = Keeps-bind _ _ (task_of-Grown q) λ tid.
      Keeps-bind _ _ (Keeps-gets _) λ most.
        Keeps-if _ _ _ (Keeps-raise _) (view-Grown rs lib.coders lib.set_status rounds tid h)

  pub cancel_task-Grown : (q : Request) → Keeps (GrownFrom rs) (cancel_task q)
  unfolding cancel_task
  cancel_task-Grown q = Keeps-bind _ _ (task_of-Grown q) (cancel-Grown rs)
