-- ===== src/Execute/Redelivery.antt =====
-- The queue delivers a message at least once; the dispatch lock keeps a second delivery from calling
-- upstream again.
use stask_service.Prelude.{Text, ◌≡◌, ◌⊎◌, inl, inr, refl}
use stask_service.Service
use stask_service.Service.{World, Service, Result, raised}
use stask_service.Service.Triples.{Post}
use stask_service.Codec.{Coders}
use stask_service.Execute.{run}
use stask_service.Execute.Settle.{Outcome}
use stask_service.Execute.Calls.{IsHeld, run-Called, run-refused}

abbrev pub Returns : Result Outcome → Type 0
Returns (Service.ok o) = Unit
Returns (raised e) = ⊥

module _ (coders : Coders) (parse_for_store : Text → Text)
    (upstream_error_detail : Text → Text → Text) (tid : Text) where
  returned :
      (Q : World → Type 0) (r : Result Outcome) (w : World)
      → Post (λ o w. Q w) (λ w. ⊥) r w
      → Returns r × Q w
  returned Q (Service.ok o) w h = (tt, h)
  returned Q (raised e) w h = elim h [ ]

  -- However the calls end: an execution that called upstream leaves the dispatch lock of its task
  -- behind, and while the lock is there another execution of the task calls nothing.
  pub run-redelivered :
      (between : World → World) (w : World)
      → ((v : World) → IsHeld tid v.locks → IsHeld tid (between v).locks)
      → let v = (run coders parse_for_store upstream_error_detail tid w).1 in
        (v.calls ≡ w.calls)
        ⊎ ((run coders parse_for_store upstream_error_detail tid (between v)).1.calls
            ≡ (between v).calls)
  run-redelivered between w keeps =
      let first =
        returned _ (run coders parse_for_store upstream_error_detail tid w).0 _
          ((run-Called tid w.calls coders parse_for_store upstream_error_detail).after w refl) in
      let v = (run coders parse_for_store upstream_error_detail tid w).1 in
      elim first.1 [
        | inl same ↦ inl same
        | inr held ↦ inr (
            (returned _ (run coders parse_for_store upstream_error_detail tid (between v)).0 _ (
              (run-refused tid (between v).calls coders parse_for_store upstream_error_detail).after
                (between v) (refl, keeps v held))).1)
      ]
