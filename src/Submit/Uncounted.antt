-- ===== src/Submit/Uncounted.antt =====
-- The calls of a submission that touch no slot.
use stask_service.Prelude.{ℕ, Text, Option, List, refl}
use stask_service.Schemas.{Status, queued}
use stask_service.Rows.{TaskData}
use stask_service.Slots.{Counters, SlotKey}
use stask_service.Service.{World}
use stask_service.Service.Keeps.{
  Keeps, Keeps-pure, Keeps-catch, Keeps-if, Keeps-gets, Keeps-bind, Keeps-external, keeps_rules,
}
use stask_service.Service.Triples.{Triple, Triple-bind, Triple-gets, Triple-pure, Triple-catch}
use stask_service.Service.Refusals.{Before, After, Triple-refused}
use stask_service.Store.{cas, create, cache_status}
use stask_service.Gate.{current, binding_layer}
use stask_service.Sessions.{store, clear, publish_execute}
use stask_service.Batching.Membership.{leave}
use stask_service.Submit.Joining.{release, settle}

module _ (P : Counters → Type 0) where
  abbrev pub On : World → Type 0
  On w = P w.counters

  cache_status-On : (tid : Text) (s : Status) → Keeps On (cache_status tid s)
  unfolding cache_status
  cache_status-On tid s =
      Keeps-catch _ _ (Keeps-external (λ w s h. h) _ (λ w h. h)) (λ e. Keeps-pure tt)

  pub cas-On :
      (tid : Text) (froms : List Status) (to : Status) (f : TaskData → TaskData) (reason : Text)
      (url : Option Text)
      → Keeps On (cas tid froms to f reason url)
  unfolding cas
  cas-On tid froms to f reason url = Keeps-bind _ _ (Keeps-gets _) λ ts.
      Keeps-bind _ _ (Keeps-external (λ w s h. h) _ (λ w h. h)) λ won.
        Keeps-bind _ _ (Keeps-if won _ _ (cache_status-On tid to) (Keeps-pure tt))
          (λ _. Keeps-pure won)

  pub clear-On : (tid : Text) → Keeps On (clear tid)
  unfolding clear
  clear-On tid = Keeps-catch _ _ (Keeps-external (λ w s h. h) _ (λ w h. h)) (λ e. Keeps-pure tt)

  pub leave-On : (tid key : Text) → Keeps On (leave tid key)
  unfolding leave
  leave-On tid key = Keeps-catch _ _ (Keeps-external (λ w s h. h) _ (λ w h. h)) (λ e. Keeps-pure tt)

  pub release-On : (tid : Text) → Keeps On (release tid)
  unfolding release
  release-On tid = Keeps-external (λ w s h. h) _ (λ w h. h)

  pub settle-On : (tid : Text) → Keeps On (settle tid)
  unfolding settle
  settle-On tid = Keeps-catch _ _ (Keeps-external (λ w s h. h) _ (λ w h. h)) (λ e. Keeps-pure tt)

  current-On : (k : SlotKey) → Keeps On (current k)
  unfolding current
  current-On k = Keeps-external (λ w s h. h) _ (λ w h. h)

  pub binding_layer-On : (h m : Text) (a b c : ℕ) → Keeps On (binding_layer h m a b c)
  unfolding binding_layer
  binding_layer-On h m a b c = search (keeps_rules, current-On) depth 12

  -- where one call may be refused
  cache_status-refused :
      (tid : Text) (s : Status)
      → Triple (Before On) (cache_status tid s) (λ x. Before On) (After On)
  unfolding cache_status
  cache_status-refused tid s =
      Triple-catch _ _ (Triple-refused On (λ x. On) (λ w s h. h) _ (λ w h. h) (λ w. refl))
        (λ e. Triple-pure tt (λ w h. (rw h.0 tt, h.1)))

  pub create-refused :
      (tid action : Text) (d : TaskData) (u : ℕ)
      → Triple (Before On) (create tid action d u) (λ x. Before On) (After On)
  unfolding create
  create-refused tid action d u =
      Triple-bind _ _ (Triple-gets {R = λ ts. Before On} _ (λ w h. h)) λ ts.
        Triple-bind _ _ (Triple-refused On (λ x. On) (λ w s h. h) _ (λ w h. h) (λ w. refl))
          (λ x. cache_status-refused tid queued)

  pub store-refused :
      (tid raw_token : Text) → Triple (Before On) (store tid raw_token) (λ x. Before On) (After On)
  unfolding store
  store-refused tid raw_token = Triple-refused On (λ x. On) (λ w s h. h) _ (λ w h. h) (λ w. refl)

  pub publish_execute-refused :
      (tid : Text) → Triple (Before On) (publish_execute tid) (λ x. Before On) (After On)
  unfolding publish_execute
  publish_execute-refused tid = Triple-refused On (λ x. On) (λ w s h. h) _ (λ w h. h) (λ w. refl)
