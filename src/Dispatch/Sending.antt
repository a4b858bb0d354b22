-- ===== src/Dispatch/Sending.antt =====
-- What a release publishes, however its calls end.
use stask_service.Prelude.{
  ℕ, Text, true, false, ltb, ◌==◌, if◌then◌else◌, Option, none, some, List, [], ◌∷◌, ◌++◌, ◌≡◌,
  refl, ◌⊎◌, inl, inr, ap,
}
use stask_service.Schemas.{failure, pending}
use stask_service.Rows.{Row, TaskData, BatchState}
use stask_service.Policy.{ResolvedPolicy}
use stask_service.Service.{
  World, Service, Message, execute_task, pure, Result, raised, gets, external, catch, quietly,
  attempt, when, ◌>>=◌,
}
use stask_service.Service
use stask_service.Service.Keeps.{Keeps, Keeps-pure, Keeps-catch, Keeps-gets, Keeps-bind}
use stask_service.Service.Triples.{
  Triple, Post, Triple-bind, Triple-external, Triple-keeps, Triple-pure, Triple-weak, Triple-if,
  Triple-catch,
}
use stask_service.Sessions.{publish_execute}
use stask_service.Dispatch.{
  Released, no_slot, skipped, enqueue, persist, admit, release_row, release_found, release,
}
use stask_service.Dispatch.Silent.{
  schedule-On, unschedule-On, release_layered-On, acquire_layered-On, get_meta-On, patch_data-On,
  claim_for_release-On, unclaim_for_release-On, cas-On, or_now-On,
}
use stask_service.Policy.Resolve.{resolve_in}

module _ (tid : Text) (sent : List Message) where
  abbrev pub IsSent : List Message → Type 0
  IsSent out = out ≡ sent ++ execute_task tid ∷ []

  abbrev pub AtMostOnce : List Message → Type 0
  AtMostOnce out = (out ≡ sent) ⊎ IsSent out

  -- what the answer says
  abbrev pub Sending : Released → List Message → Type 0
  Sending Released.ok out = IsSent out
  Sending no_slot out = out ≡ sent
  Sending skipped out = AtMostOnce out

  more : {out : List Message} → out ≡ sent → IsSent (out ++ execute_task tid ∷ [])
  more h = ap (λ l. l ++ execute_task tid ∷ []) h

  published :
      Triple
        (λ w. w.sent ≡ sent)
        (attempt (publish_execute tid))
        (λ b w. if b then IsSent w.sent else AtMostOnce w.sent)
        (λ w. AtMostOnce w.sent)
  unfolding publish_execute
  published =
      Triple-catch _ _
        (Triple-bind _ _
          (Triple-external {R = λ _ w. IsSent w.sent} (λ w s h. h) _ (λ w h. more h) (λ w h. inl h)
            (λ w h. inr (more h)))
          (λ _. Triple-pure true (λ w h. h)))
        (λ e. Triple-pure false (λ w h. h))

  -- a part that publishes nothing and goes on with a part that answers
  silently {ℓ} :
      {A : Type ℓ} {Q : World → Type 0} (m : Service A) (k : A → Service Released)
      → Keeps Q m
      → ((a : A) → Triple Q (k a) (λ r w. Sending r w.sent) (λ w. AtMostOnce w.sent))
      → ((w : World) → Q w → AtMostOnce w.sent)
      → Triple Q (m >>= k) (λ r w. Sending r w.sent) (λ w. AtMostOnce w.sent)
  silently m k q f g =
      Triple-bind m k (Triple-weak m (λ w h. h) (λ a w h. h) g (Triple-keeps m q)) f

  enqueue-sends :
      (token_hash model : Text) (mask : ℕ)
      → Triple
          (λ w. w.sent ≡ sent)
          (enqueue tid token_hash model mask)
          (λ r w. Sending r w.sent)
          (λ w. AtMostOnce w.sent)
  unfolding enqueue
  enqueue-sends token_hash model mask = Triple-bind _ _ published λ b.
      Triple-if b _ _
        (λ e.
          rw e (
            silently _ _ (unschedule-On IsSent tid) (λ _. Triple-pure _ (λ w h. h)) (λ w h. inr h)))
        (λ e. rw e (
          silently _ _ (release_layered-On AtMostOnce token_hash model mask)
            (λ _.
              silently _ _ (cas-On AtMostOnce tid pending failure _ _ none)
                (λ _. Triple-pure _ (λ w h. h)) (λ w h. h))
            (λ w h. h)))

  abbrev Unsent : World → Type 0
  Unsent w = w.sent ≡ sent

  before {ℓ} :
      {A : Type ℓ} (m : Service A) (k : A → Service Released)
      → Keeps Unsent m
      → ((a : A) → Triple Unsent (k a) (λ r w. Sending r w.sent) (λ w. AtMostOnce w.sent))
      → Triple Unsent (m >>= k) (λ r w. Sending r w.sent) (λ w. AtMostOnce w.sent)
  before m k q f = silently m k q f (λ w h. inl h)

  abbrev IsUnsent : List Message → Type 0
  IsUnsent out = out ≡ sent

  persist-sends :
      (token_hash model : Text) (mask : ℕ) (s : BatchState)
      → Triple Unsent
          (persist tid token_hash model mask s)
          (λ r w. Sending r w.sent)
          (λ w. AtMostOnce w.sent)
  unfolding persist
  persist-sends token_hash model mask s =
      before _ _
        (Keeps-catch _ _
          (Keeps-bind _ _ (Keeps-bind _ _ (Keeps-gets _) (λ ts. patch_data-On IsUnsent tid _))
            (λ _. Keeps-pure true))
          (λ e. Keeps-pure false))
        λ stored.
          Triple-if stored _ _ (λ _. enqueue-sends token_hash model mask)
            λ _. before _ _ (release_layered-On IsUnsent token_hash model mask) λ _.
              before _ _ (unclaim_for_release-On IsUnsent tid s) (λ _. Triple-pure _ (λ w h. h))

  admit-sends :
      (d : TaskData) (model : Text) (p : ResolvedPolicy) (max_slots : ℕ)
      → Triple Unsent
          (admit tid d model p max_slots)
          (λ r w. Sending r w.sent)
          (λ w. AtMostOnce w.sent)
  unfolding admit
  admit-sends d model p max_slots = before _ _ (claim_for_release-On IsUnsent tid) λ claimed.
      Triple-if claimed _ _
        (λ _. before _ _ (acquire_layered-On IsUnsent d.token_hash model _ _ _) λ mask.
          Triple-if (mask == 0) _ _
            (λ _.
              before _ _ (unclaim_for_release-On IsUnsent tid _) (λ _. Triple-pure _ (λ w h. h)))
            (λ _. persist-sends d.token_hash model mask _))
        (λ _. Triple-pure _ (λ w h. inl h))

  release_row-sends :
      (moment : Option ℕ) (d : TaskData)
      → Triple Unsent (release_row tid moment d) (λ r w. Sending r w.sent) (λ w. AtMostOnce w.sent)
  unfolding release_row
  release_row-sends moment d = before _ _ (or_now-On IsUnsent moment) λ ts.
      Triple-if (ltb ts d.scheduled_at) _ _
        (λ _. before _ _ (schedule-On IsUnsent tid _) (λ _. Triple-pure _ (λ w h. inl h)))
        (λ _. before _ _ (Keeps-gets _) (λ w.
          admit-sends d _ (resolve_in d.model d.request_path w.policies w.config.max_slots)
            w.config.max_slots))

  release_found-sends :
      (moment : Option ℕ) (o : Option Row)
      → Triple Unsent
          (release_found tid moment o)
          (λ r w. Sending r w.sent)
          (λ w. AtMostOnce w.sent)
  release_found-sends moment none = Triple-pure _ (λ w h. inl h)
  release_found-sends moment (some r) = release_row-sends moment r.task_data

  release-sends :
      (moment : Option ℕ)
      → Triple Unsent (release tid moment) (λ r w. Sending r w.sent) (λ w. AtMostOnce w.sent)
  unfolding release
  release-sends moment =
      before _ _ (get_meta-On IsUnsent tid) (λ row. release_found-sends moment row)

  abbrev pub Answer : Result Released → List Message → Type 0
  Answer (Service.ok r) out = Sending r out
  Answer (raised e) out = AtMostOnce out

  read :
      (r : Result Released) (w : World)
      → Post (λ r w. Sending r w.sent) (λ w. AtMostOnce w.sent) r w
      → Answer r w.sent
  read (Service.ok r) w h = h
  read (raised e) w h = h

-- However its calls end, a release publishes at most one message, for its own task: exactly one
-- where it answers OK, and none where it answers NO_SLOT.
pub release-Answer :
    (tid : Text) (moment : Option ℕ) (w : World)
    → Answer tid w.sent (release tid moment w).0 (release tid moment w).1.sent
release-Answer tid moment w =
    read tid w.sent (release tid moment w).0 (release tid moment w).1
      ((release-sends tid w.sent moment).after w refl)
