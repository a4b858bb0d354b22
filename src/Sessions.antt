-- ===== src/Sessions.antt =====
-- app/services/tokensession.py: the token of a task, kept from its submission to its end. The
-- publishing functions of app/queue.py are here too.
pub mod Growth
use stask_service.Prelude.{ℕ, suc, Text, Option, none, some, List, [], ◌∷◌, ◌++◌}
use stask_service.Service.{
  World, Service, Message, execute_task, notify_task, release_batch, external, send_off, quietly,
  put_at,
}

unfoldable pub store : Text → Text → Service (Unit {0})
store tid raw_token = send_off (λ w. record w { sessions = put_at tid (some raw_token) w.sessions })

unfoldable pub get : Text → Service (Option Text)
get tid = external (λ w. (w.sessions tid, w))

unfoldable pub clear : Text → Service (Unit {0})
clear tid = quietly (send_off (λ w. record w { sessions = put_at tid none w.sessions }))

abbrev publish : Message → Service (Unit {0})
publish m = send_off (λ w. record w { sent = w.sent ++ m ∷ [] })

unfoldable pub publish_execute : Text → Service (Unit {0})
publish_execute tid = publish (execute_task tid)

unfoldable pub publish_release_batch : Text → Text → Service (Unit {0})
publish_release_batch key source = publish (release_batch key source)

unfoldable pub publish_notify : Text → ℕ → ℕ → Service (Unit {0})
publish_notify tid attempt delay_seconds = publish (notify_task tid attempt delay_seconds)
