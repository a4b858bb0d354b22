-- ===== src/Dispatch/Silent.antt =====
-- The calls of a release that publish nothing.
use stask_service.Prelude.{ℕ, Text, ◌==◌, Option, none, some, List}
use stask_service.Schemas.{Status}
use stask_service.Rows.{TaskData, BatchState}
use stask_service.Service.{World, Message}
use stask_service.Service.Keeps.{
  Keeps, Keeps-pure, Keeps-catch, Keeps-if, Keeps-gets, Keeps-bind, Keeps-external, keeps_rules,
}
use stask_service.Store.{
  get_meta, cas, cache_status, patch_data, claim_for_release, unclaim_for_release,
}
use stask_service.Gate.{acquire_layered, release_layered}
use stask_service.Dispatch.{schedule, unschedule, or_now}

-- The calls that publish nothing keep whatever is known of what was published.
module _ (P : List Message → Type 0) where
  abbrev pub On : World → Type 0
  On w = P w.sent

  pub schedule-On : (tid : Text) (t : ℕ) → Keeps On (schedule tid t)
  unfolding schedule
  schedule-On tid t = Keeps-external (λ w s h. h) _ (λ w h. h)

  pub unschedule-On : (tid : Text) → Keeps On (unschedule tid)
  unfolding unschedule
  unschedule-On tid =
      Keeps-catch _ _ (Keeps-external (λ w s h. h) _ (λ w h. h)) (λ e. Keeps-pure tt)

  pub release_layered-On : (h m : Text) (mask : ℕ) → Keeps On (release_layered h m mask)
  unfolding release_layered
  release_layered-On h m mask =
      Keeps-if (mask == 0) _ _ (Keeps-pure tt)
        (Keeps-catch _ _ (Keeps-external (λ w s h. h) _ (λ w h. h)) (λ e. Keeps-pure tt))

  pub acquire_layered-On : (h m : Text) (a b c : ℕ) → Keeps On (acquire_layered h m a b c)
  unfolding acquire_layered
  acquire_layered-On h m a b c = Keeps-external (λ w s h. h) _ (λ w h. h)

  pub get_meta-On : (tid : Text) → Keeps On (get_meta tid)
  unfolding get_meta
  get_meta-On tid = Keeps-external (λ w s h. h) _ (λ w h. h)

  pub cache_status-On : (tid : Text) (s : Status) → Keeps On (cache_status tid s)
  unfolding cache_status
  cache_status-On tid s =
      Keeps-catch _ _ (Keeps-external (λ w s h. h) _ (λ w h. h)) (λ e. Keeps-pure tt)

  pub patch_data-On : (tid : Text) (f : TaskData → TaskData) → Keeps On (patch_data tid f)
  unfolding patch_data
  patch_data-On tid f =
      Keeps-bind _ _ (Keeps-gets _) (λ ts. Keeps-external (λ w s h. h) _ (λ w h. h))

  pub claim_for_release-On : (tid : Text) → Keeps On (claim_for_release tid)
  unfolding claim_for_release
  claim_for_release-On tid =
      Keeps-bind _ _ (Keeps-gets _) (λ ts. Keeps-external (λ w s h. h) _ (λ w h. h))

  pub unclaim_for_release-On : (tid : Text) (s : BatchState) → Keeps On (unclaim_for_release tid s)
  unfolding unclaim_for_release
  unclaim_for_release-On tid s = patch_data-On tid _

  pub cas-On :
      (tid : Text) (froms : List Status) (to : Status) (f : TaskData → TaskData) (reason : Text)
      (url : Option Text)
      → Keeps On (cas tid froms to f reason url)
  unfolding cas
  cas-On tid froms to f reason url = Keeps-bind _ _ (Keeps-gets _) λ ts.
      Keeps-bind _ _ (Keeps-external (λ w s h. h) _ (λ w h. h)) λ won.
        Keeps-bind _ _ (Keeps-if won _ _ (cache_status-On tid to) (Keeps-pure tt))
          (λ _. Keeps-pure won)

  pub or_now-On : (moment : Option ℕ) → Keeps On (or_now moment)
  or_now-On none = Keeps-gets _
  or_now-On (some ts) = Keeps-pure ts

pub ruleset silent = (
  keeps_rules, schedule-On, unschedule-On, release_layered-On, acquire_layered-On, get_meta-On,
  cache_status-On, patch_data-On, claim_for_release-On, unclaim_for_release-On, cas-On, or_now-On,
)
