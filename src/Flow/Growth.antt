-- ===== src/Flow/Growth.antt =====
-- Cancelling and looking at a task move rows along the state machine only.
use stask_service.Prelude.{Text, Option, none, some, List, [], ◌∷◌, refl}
use stask_service.Schemas.{Status, canceled, pending}
use stask_service.Rows.{Row}
use stask_service.Service.{World, pure}
use stask_service.Service.Keeps.{
  Keeps, Keeps-pure, Keeps-raise, Keeps-bind, Keeps-if, Keeps-option, keeps_rules,
}
use stask_service.Store.Growth.{
  Grows, Grows-refl, GrownFrom, OthersKeep, Moves, pending-Moves, get-Grown, get_status-Grown,
  cached_status-Grown, cache_status-Grown, grown_rules,
}
use stask_service.Gate.Growth.{gate_rules}
use stask_service.Sessions.Growth.{session_rules}
use stask_service.Dispatch.Growth.{dispatch_rules}
use stask_service.Batching.Membership.Growth.{membership_rules}
use stask_service.Flow.{
  cancel_row, cancel_found, cancel, probe_status, long_poll, not_yet, waited, ended, probed, view,
}
use stask_service.Codec.{Coders}

pending_canceled : Moves pending canceled
pending_canceled = pending-Moves canceled refl

ruleset parts = (
  keeps_rules, grown_rules, gate_rules, session_rules, dispatch_rules, membership_rules,
  pending_canceled,
)

module _ (rs : List Row) where
  cancel_row-Grown : (tid : Text) (row : Row) → Keeps (GrownFrom rs) (cancel_row tid row)
  unfolding cancel_row
  cancel_row-Grown tid row = search parts depth 12

  cancel_found-Grown : (tid : Text) (o : Option Row) → Keeps (GrownFrom rs) (cancel_found tid o)
  unfolding cancel_found
  cancel_found-Grown tid none = Keeps-raise _
  cancel_found-Grown tid (some row) = cancel_row-Grown tid row

  pub cancel-Grown : (tid : Text) → Keeps (GrownFrom rs) (cancel tid)
  unfolding cancel
  cancel-Grown tid = search (parts, cancel_found-Grown) depth 12

module _ (rs : List Row) where
  probe_status-Grown : (tid : Text) → Keeps (GrownFrom rs) (probe_status tid)
  unfolding probe_status
  probe_status-Grown tid = Keeps-bind _ _ (cached_status-Grown rs tid) λ cached.
      Keeps-option cached _ _
        (Keeps-bind _ _ (get_status-Grown rs tid) λ found.
          Keeps-option found _ _ (Keeps-pure none)
            (λ s. Keeps-bind _ _ (cache_status-Grown rs tid s) (λ x. Keeps-pure (some s))))
        (λ s. Keeps-pure (some s))

  long_poll-Grown :
      (others : List (World → World)) (tid : Text)
      → OthersKeep rs others
      → Keeps (GrownFrom rs) (long_poll others tid)
  unfolding long_poll pure
  long_poll-Grown [] tid h = Keeps-pure none
  long_poll-Grown (f ∷ others) tid h =
      Keeps-bind _ _ (record { at = λ w g. h.0 w g })
        λ x. Keeps-bind _ _ (probe_status-Grown tid) λ status.
          Keeps-option status _ _ (Keeps-pure none)
            λ s. Keeps-if _ _ _ (long_poll-Grown others tid h.1) (get-Grown rs tid)

  module _ (coders : Coders) (set_status : Text → Text → Option Text) where
    not_yet-Grown : (o : Option Row) → Keeps (GrownFrom rs) (not_yet coders set_status o)
    unfolding not_yet
    not_yet-Grown none = Keeps-raise _
    not_yet-Grown (some row) = Keeps-pure _

    waited-Grown :
        (tid : Text) (o : Option Row) → Keeps (GrownFrom rs) (waited coders set_status tid o)
    unfolding waited
    waited-Grown tid none = search (parts, not_yet-Grown) depth 12
    waited-Grown tid (some row) = search (parts, not_yet-Grown) depth 12

    ended-Grown : (o : Option Row) → Keeps (GrownFrom rs) (ended coders set_status o)
    unfolding ended
    ended-Grown none = Keeps-raise _
    ended-Grown (some row) = Keeps-pure _

    probed-Grown :
        (others : List (World → World)) (tid : Text) (o : Option Status)
        → OthersKeep rs others
        → Keeps (GrownFrom rs) (probed coders set_status others tid o)
    unfolding probed
    probed-Grown others tid none h = Keeps-raise _
    probed-Grown others tid (some s) h =
        Keeps-if _ _ _ (Keeps-bind _ _ (get-Grown rs tid) ended-Grown)
          (Keeps-bind _ _ (long_poll-Grown others tid h) (waited-Grown tid))

    pub view-Grown :
        (others : List (World → World)) (tid : Text)
        → OthersKeep rs others
        → Keeps (GrownFrom rs) (view coders set_status others tid)
    unfolding view
    view-Grown others tid h =
        Keeps-bind _ _ (probe_status-Grown tid) (λ o. probed-Grown others tid o h)

-- However its calls end, a cancellation loses no row and moves rows along the state machine only.
cancel-Grows : (tid : Text) (w : World) → Grows w.rows (cancel tid w).1.rows
cancel-Grows tid w = (cancel-Grown w.rows tid).at w (Grows-refl w.rows)
