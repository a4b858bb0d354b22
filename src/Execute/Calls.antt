-- ===== src/Execute/Calls.antt =====
-- How often an execution calls upstream, and what the dispatch lock prevents.
use stask_service.Prelude.{
  ℕ, Text, text_eq_refl, Bool, true, false, Option, none, some, List, [], ◌≡◌, ◌≢◌, ◌⊎◌, inl, inr,
  refl, arith, Option-cases,
}
use stask_service.Schemas.{pending, in_progress, success, failure, active, is_among}
use stask_service.Rows.{Row, TaskData}
use stask_service.Service.{World, pure}
use stask_service.Service.Keeps.{Keeps}
use stask_service.Service.Triples.{
  Triple, Triple-bind, Triple-external, Triple-keeps, Triple-pure, Triple-weak, Triple-if,
  Triple-catch,
}
use stask_service.Codec.{Coders}
use stask_service.Execute.{acquire_dispatch_lock, with_session, run_row, run_found, run}
use stask_service.Execute.Upstream.{request}
use stask_service.Execute.Kept.{with_session-Kept}
use stask_service.Execute.Silent.{get-On, cas-On, session-On, finalize-On}

abbrev pub Locks : Type 0
Locks = Text → Option ℕ

-- the lock of the task is held
abbrev pub IsHeld : Text → Locks → Type 0
IsHeld tid locks = locks tid ≢ none

module _ (tid : Text) (calls : List Text) where
  -- no call was made, and where one was, the lock is held now
  abbrev pub CalledUnderLock : List Text → Locks → Type 0
  CalledUnderLock out locks = (out ≡ calls) ⊎ IsHeld tid locks

  abbrev pub Start : World → Type 0
  Start w = w.calls ≡ calls

  -- under the lock anything may happen to the calls
  abbrev pub Held : World → Type 0
  Held w = IsHeld tid w.locks

  request-Held : Keeps Held (request tid)
  unfolding request pure
  request-Held = record { at = λ w h. h }

  abbrev Answer : Bool → World → Type 0
  Answer true w = Held w
  Answer false w = Start w

  lock-taken : (n : ℕ) → Triple Start (acquire_dispatch_lock tid n) Answer Start
  unfolding acquire_dispatch_lock
  lock-taken n =
      Triple-catch _ _
        (Triple-external (λ w s h. h) _
          (λ w h. elim (Option-cases (w.locks tid)) [
            | inl e ↦ rw e (λ z. ground (arith, text_eq_refl tid))
            | inr (x, e) ↦ rw e h
          ])
          (λ w h. h)
          (λ w h. elim (Option-cases (w.locks tid)) [ inl e ↦ rw e h | inr (x, e) ↦ rw e h ]))
        (λ e. Triple-pure false (λ w h. h))

  -- where the lock is held already, nothing is locked
  lock-refused :
      (n : ℕ)
      → Triple
          (λ w. Start w × Held w)
          (acquire_dispatch_lock tid n)
          (λ b w. (b ≡ false) × Start w)
          Start
  unfolding acquire_dispatch_lock
  lock-refused n =
      Triple-catch _ _
        (Triple-external (λ w s h. h) _
          (λ w h. elim (Option-cases (w.locks tid)) [
            | inl e ↦ elim (h.1 e) [ ]
            | inr (x, e) ↦ rw e (refl, h.0)
          ])
          (λ w h. h.0)
          (λ w h. elim (Option-cases (w.locks tid)) [ inl e ↦ rw e h.0 | inr (x, e) ↦ rw e h.0 ]))
        (λ e. Triple-pure false (λ w h. (refl, h)))

  abbrev pub Called : World → Type 0
  Called w = CalledUnderLock w.calls w.locks

  abbrev pub Both : World → Type 0
  Both w = Start w × Held w

  module _ (coders : Coders) (p : Text → Text) (u : Text → Text → Text) where
    with_session-Held :
        (d : TaskData) (o : Option Text) → Keeps Held (with_session coders p u tid d o)
    with_session-Held d o =
        with_session-Kept Held coders p u tid d request-Held
          (λ f reason. finalize-On (λ c l. IsHeld tid l) tid d failure f reason none)
          (λ f url. finalize-On (λ c l. IsHeld tid l) tid d success f [] url) o

    run_row-Called :
        (row : Row) → Triple Start (run_row coders p u tid row) (λ o w. Called w) Called
    unfolding run_row
    run_row-Called row =
        Triple-if (is_among row.status active) _ _
          (λ _.
            Triple-bind _ _
              (Triple-weak _ (λ w h. h) (λ a w h. h) (λ w h. inl h)
                (Triple-keeps _ (cas-On (λ c l. c ≡ calls) tid pending in_progress _ [] none)))
              λ _.
                Triple-bind _ _
                  (Triple-weak _ (λ w h. h) (λ a w h. h) (λ w h. inl h) (lock-taken _))
                  λ locked.
                    Triple-if locked _ _
                      (λ e. rw e (
                        Triple-bind _ _
                          (Triple-weak _ (λ w h. h) (λ a w h. h) (λ w h. inr h)
                            (Triple-keeps _ (session-On (λ c l. IsHeld tid l) tid)))
                          (λ session.
                            Triple-weak _ (λ w h. h) (λ a w h. inr h) (λ w h. inr h)
                              (Triple-keeps _ (with_session-Held row.task_data session)))))
                      (λ e. rw e (Triple-pure _ (λ w h. inl h))))
          (λ _. Triple-pure _ (λ w h. inl h))

    run_found-Called :
        (o : Option Row) → Triple Start (run_found coders p u tid o) (λ o w. Called w) Called
    unfolding run_found
    run_found-Called none = Triple-pure _ (λ w h. inl h)
    run_found-Called (some row) = run_row-Called row

    pub run-Called : Triple Start (run coders p u tid) (λ o w. Called w) (λ w. ⊥)
    unfolding run
    run-Called =
        Triple-catch _ _
          (Triple-bind _ _
            (Triple-weak _ (λ w h. h) (λ a w h. h) (λ w h. inl h)
              (Triple-keeps _ (get-On (λ c l. c ≡ calls) tid)))
            (λ row. run_found-Called row))
          (λ e. Triple-pure _ (λ w h. h))

    run_row-refused : (row : Row) → Triple Both (run_row coders p u tid row) (λ o w. Start w) Start
    unfolding run_row
    run_row-refused row =
        Triple-if (is_among row.status active) _ _
          (λ _.
            Triple-bind _ _
              (Triple-weak _ (λ w h. h) (λ a w h. h) (λ w h. h.0)
                (Triple-keeps _
                  (cas-On (λ c l. (c ≡ calls) × IsHeld tid l) tid pending in_progress _ [] none)))
              λ _. Triple-bind _ _ (lock-refused _) λ locked.
                Triple-if locked _ _ (λ e. record { after = λ w h. elim (clash locked e h.0) [ ] })
                  (λ e. Triple-pure _ (λ w h. h.1)))
          (λ _. Triple-pure _ (λ w h. h.0))
      where
        clash : (b : Bool) → b ≡ true → b ≡ false → ⊥
        clash true e f = ground arith
        clash false e f = ground arith

    run_found-refused :
        (o : Option Row) → Triple Both (run_found coders p u tid o) (λ o w. Start w) Start
    unfolding run_found
    run_found-refused none = Triple-pure _ (λ w h. h.0)
    run_found-refused (some row) = run_row-refused row

    pub run-refused : Triple Both (run coders p u tid) (λ o w. Start w) (λ w. ⊥)
    unfolding run
    run-refused =
        Triple-catch _ _
          (Triple-bind _ _
            (Triple-weak _ (λ w h. h) (λ a w h. h) (λ w h. h.0)
              (Triple-keeps _ (get-On (λ c l. (c ≡ calls) × IsHeld tid l) tid)))
            (λ row. run_found-refused row))
          (λ e. Triple-pure _ (λ w h. h))
