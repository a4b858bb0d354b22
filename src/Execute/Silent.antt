-- ===== src/Execute/Silent.antt =====
-- The parts of an execution that neither call upstream nor touch a dispatch lock.
use stask_service.Prelude.{ℕ, Text, Bool, ◌==◌, Option, List}
use stask_service.Schemas.{Status}
use stask_service.Rows.{TaskData}
use stask_service.Service.{World, Service, pure, when}
use stask_service.Service.Keeps.{
  Keeps, Keeps-pure, Keeps-catch, Keeps-if, Keeps-gets, Keeps-bind, Keeps-external, keeps_rules,
}
use stask_service.Store.{get, cas, cache_status}
use stask_service.Gate.{release_layered, release_for_task, is_blank}
use stask_service.Sessions.{clear, publish_notify}
use stask_service.Sessions
use stask_service.Codec.{Coders}
use stask_service.Execute.Settle.{finalize, settle_response}

module _ (P : List Text → (Text → Option ℕ) → Type 0) where
  abbrev pub On : World → Type 0
  On w = P w.calls w.locks

  pub get-On : (tid : Text) → Keeps On (get tid)
  unfolding get
  get-On tid = Keeps-external (λ w s h. h) _ (λ w h. h)

  cache_status-On : (tid : Text) (s : Status) → Keeps On (cache_status tid s)
  unfolding cache_status
  cache_status-On tid s =
      Keeps-catch _ _ (Keeps-external (λ w s h. h) _ (λ w h. h)) (λ e. Keeps-pure tt)

  pub cas-On :
      (tid : Text) (froms : List Status) (to : Status) (f : TaskData → TaskData) (reason : Text)
      (url : Option Text)
      → Keeps On (cas tid froms to f reason url)
  unfolding cas
  cas-On tid froms to f reason url = Keeps-bind _ _ (Keeps-gets _) λ ts.
      Keeps-bind _ _ (Keeps-external (λ w s h. h) _ (λ w h. h)) λ won.
        Keeps-bind _ _ (Keeps-if won _ _ (cache_status-On tid to) (Keeps-pure tt))
          (λ _. Keeps-pure won)

  pub session-On : (tid : Text) → Keeps On (Sessions.get tid)
  unfolding Sessions.get
  session-On tid = Keeps-external (λ w s h. h) _ (λ w h. h)

  clear-On : (tid : Text) → Keeps On (clear tid)
  unfolding clear
  clear-On tid = Keeps-catch _ _ (Keeps-external (λ w s h. h) _ (λ w h. h)) (λ e. Keeps-pure tt)

  publish_notify-On : (tid : Text) (a b : ℕ) → Keeps On (publish_notify tid a b)
  unfolding publish_notify
  publish_notify-On tid a b = Keeps-external (λ w s h. h) _ (λ w h. h)

  release_layered-On : (h m : Text) (mask : ℕ) → Keeps On (release_layered h m mask)
  unfolding release_layered
  release_layered-On h m mask =
      Keeps-if (mask == 0) _ _ (Keeps-pure tt)
        (Keeps-catch _ _ (Keeps-external (λ w s h. h) _ (λ w h. h)) (λ e. Keeps-pure tt))

  release_for_task-On : (d : TaskData) → Keeps On (release_for_task d)
  unfolding release_for_task
  release_for_task-On d =
      Keeps-if (is_blank d.token_hash) _ _ (Keeps-pure tt)
        (release_layered-On d.token_hash d.slot_model d.slot_flags)

  when-On : (b : Bool) (m : Service (Unit {0})) → Keeps On m → Keeps On (when b m)
  when-On b m k = Keeps-if b m (pure tt) k (Keeps-pure tt)

  pub finalize-On :
      (tid : Text) (d : TaskData) (s : Status) (f : TaskData → TaskData) (reason : Text)
      (url : Option Text)
      → Keeps On (finalize tid d s f reason url)
  unfolding finalize
  finalize-On tid d s f reason url =
      search (keeps_rules, cas-On, when-On, release_for_task-On, clear-On, publish_notify-On) depth
        12

  module _ (coders : Coders) (p : Text → Text) (u : Text → Text → Text) where
    pub settle_response-On :
        (tid : Text) (d : TaskData) (status : ℕ) (content_type raw : Text) (n : ℕ)
        → Keeps On (settle_response coders p u tid d status content_type raw n)
    unfolding settle_response
    settle_response-On tid d status content_type raw n = search (keeps_rules, finalize-On) depth 12
