-- ===== src/Notify/Followup.antt =====
-- What one delivery sends and publishes, however its calls end.
use stask_service.Prelude.{
  ℕ, suc, ◌+◌, ◌≤◌, ◌<◌, Text, leb, length, Option, none, some, List, [], ◌∷◌, ◌++◌, ◌≡◌, refl, ◌⊎◌,
  inl, inr, ap, arith, length-append,
}
use stask_service.Rows.{Row, TaskData}
use stask_service.Gate.{is_blank}
use stask_service.Service.{
  World, Service, Message, notify_task, Callback, Reply, Result, raised, pure, gets, external,
  ◌>>=◌,
}
use stask_service.Service
use stask_service.Service.Keeps.{Keeps, Keeps-bind, Keeps-gets, Keeps-external}
use stask_service.Service.Triples.{
  Triple, Post, Triple-bind, Triple-keeps, Triple-weak, Triple-if, Triple-pure, Triple-gets,
  Triple-external,
}
use stask_service.Store.{get_meta, patch_data}
use stask_service.Sessions.{publish_notify}
use stask_service.Notify.{
  Libraries, Settings, Delivery, deliver, deliver_row, deliver_found, after_post, try_later, post,
  url_allowed, is_accepted, delay_of,
}

-- the calls that send and publish nothing
module _ (P : List Callback → ℕ → List Message → Type 0) where
  abbrev pub On : World → Type 0
  On w = P w.posts w.config.callback_max_attempts w.sent

  get_meta-On : (tid : Text) → Keeps On (get_meta tid)
  unfolding get_meta
  get_meta-On tid = Keeps-external (λ w s h. h) _ (λ w h. h)

  patch_data-On : (tid : Text) (f : TaskData → TaskData) → Keeps On (patch_data tid f)
  unfolding patch_data
  patch_data-On tid f =
      Keeps-bind _ _ (Keeps-gets _) (λ ts. Keeps-external (λ w s h. h) _ (λ w h. h))

module _ (tid : Text) (attempt : ℕ) (posts : List Callback) (most : ℕ) (sent : List Message) where
  -- nothing was sent or published
  abbrev Before : List Callback → ℕ → List Message → Type 0
  Before p k m = (p ≡ posts) × (k ≡ most) × (m ≡ sent)

  -- one callback may have been sent
  abbrev Posted : List Callback → ℕ → List Message → Type 0
  Posted p k m = (length p ≤ suc (length posts)) × (k ≡ most) × (m ≡ sent)

  -- and the next attempt may have been published, where one is left
  abbrev pub Next : List Message → Type 0
  Next m =
      (m ≡ sent)
      ⊎ ((m ≡ sent ++ notify_task tid (attempt + 1) (delay_of attempt) ∷ []) × (attempt < most))

  abbrev pub Followed : List Callback → ℕ → List Message → Type 0
  Followed p k m = (length p ≤ suc (length posts)) × (k ≡ most) × Next m

  Before-Followed : (w : World) → On Before w → On Followed w
  Before-Followed w h = (ground (arith, h.0), h.1, inl h.2)

  Posted-Followed : (w : World) → On Posted w → On Followed w
  Posted-Followed w h = (h.0, h.1, inl h.2)

  try_later-Followed : Triple (On Posted) (try_later tid attempt) (λ d. On Followed) (On Followed)
  unfolding try_later publish_notify
  try_later-Followed =
      Triple-bind _ _ (Triple-gets {R = λ k w. (k ≡ most) × On Posted w} _ (λ w h. (h.1, h))) λ k.
        Triple-if (leb k attempt) _ _
          (λ e.
            Triple-bind _ _
              (Triple-weak _ (λ w h. h.1) (λ a w h. h) Posted-Followed
                (Triple-keeps _ (patch_data-On Posted tid _)))
              (λ x. Triple-pure _ (λ w h. Posted-Followed w h)))
          (λ e.
            Triple-bind {R = λ x. On Followed} _ _
              (Triple-external (λ w s h. h) _
                (λ w h. (h.1.0, h.1.1, inr (published h.1.2, ground (arith, e, h.0))))
                (λ w h. Posted-Followed w h.1)
                (λ w h. (h.1.0, h.1.1, inr (published h.1.2, ground (arith, e, h.0)))))
              (λ x. Triple-pure _ (λ w h. h)))
    where
      published :
          {m : List Message}
          → m ≡ sent
          → m ++ notify_task tid (attempt + 1) (delay_of attempt) ∷ []
            ≡ sent ++ notify_task tid (attempt + 1) (delay_of attempt) ∷ []
      published h = ap (λ l. l ++ notify_task tid (attempt + 1) (delay_of attempt) ∷ []) h

  after_post-Followed :
      (r : Reply) → Triple (On Posted) (after_post tid attempt r) (λ d. On Followed) (On Followed)
  unfolding after_post
  after_post-Followed r =
      Triple-if (is_accepted r) _ _
        (λ e.
          Triple-bind _ _
            (Triple-weak _ (λ w h. h) (λ a w h. h) Posted-Followed
              (Triple-keeps _ (patch_data-On Posted tid _)))
            (λ x. Triple-pure _ (λ w h. Posted-Followed w h)))
        (λ e. try_later-Followed)

  post-Posted : (c : Callback) → Triple (On Before) (post c) (λ r. On Posted) (On Followed)
  unfolding post pure
  post-Posted c = record {
    after = λ w h. (ground (arith, h.0, length-append w.posts (c ∷ [])), h.1, h.2);
  }

  module _ (lib : Libraries) (s : Settings) where
    deliver_row-Followed :
        (r : Row)
        → Triple (On Before) (deliver_row lib s tid attempt r) (λ d. On Followed) (On Followed)
    unfolding deliver_row
    deliver_row-Followed r =
        Triple-if (is_blank r.task_data.callback_url) _ _ (λ e. Triple-pure _ Before-Followed)
          (λ e.
            Triple-if (url_allowed lib s r.task_data.callback_url) _ _
              (λ e.
                Triple-bind _ _ (Triple-gets {R = λ ts. On Before} _ (λ w h. h))
                  λ ts. Triple-bind _ _ (post-Posted _) after_post-Followed)
              (λ e. Triple-pure _ Before-Followed))

    deliver_found-Followed :
        (o : Option Row)
        → Triple (On Before) (deliver_found lib s tid attempt o) (λ d. On Followed) (On Followed)
    unfolding deliver_found
    deliver_found-Followed none = Triple-pure _ Before-Followed
    deliver_found-Followed (some r) = deliver_row-Followed r

    deliver-Followed :
        Triple (On Before) (deliver lib s tid attempt) (λ d. On Followed) (On Followed)
    unfolding deliver
    deliver-Followed =
        Triple-bind _ _
          (Triple-weak _ (λ w h. h) (λ a w h. h) Before-Followed
            (Triple-keeps _ (get_meta-On Before tid)))
          deliver_found-Followed

read : (P : World → Type 0) (r : Result Delivery) (w : World) → Post (λ d. P) P r w → P w
read P (Service.ok d) w h = h
read P (raised e) w h = h

-- However its calls end: a delivery sends one callback at most, and publishes nothing, or the next
-- attempt where one is left.
pub deliver-Next :
    (lib : Libraries) (s : Settings) (tid : Text) (attempt : ℕ) (w : World)
    → let v = (deliver lib s tid attempt w).1 in
      (length v.posts ≤ suc (length w.posts))
      × (v.config.callback_max_attempts ≡ w.config.callback_max_attempts)
      × Next tid attempt w.posts w.config.callback_max_attempts w.sent v.sent
deliver-Next lib s tid attempt w =
    read _ (deliver lib s tid attempt w).0 (deliver lib s tid attempt w).1 (
      (deliver-Followed tid attempt w.posts w.config.callback_max_attempts w.sent lib s).after w
        (refl, refl, refl))
