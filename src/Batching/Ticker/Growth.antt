-- ===== src/Batching/Ticker/Growth.antt =====
-- A round of the ticker moves rows along the state machine only, and the count of a batch is right.
use stask_service.Prelude.{ℕ, Text, Option, none, some, List, [], ◌∷◌}
use stask_service.Rows.{Row, TaskData}
use stask_service.Service
use stask_service.Service.{World, Service, Result, raised, pure, raise, gets, catch, ◌>>=◌}
use stask_service.Service.Keeps.{
  Keeps, Keeps-pure, Keeps-raise, Keeps-catch, Keeps-if, Keeps-bind, keeps_rules,
}
use stask_service.Store.Growth.{Grows, Grows-refl, GrownFrom, grown_rules}
use stask_service.Dispatch.{Released, no_slot, skipped}
use stask_service.Dispatch.Growth.{dispatch_rules, unschedule-Grown}
use stask_service.Batching.Membership.Growth.{membership_rules}
use stask_service.Submit.Growth.{join_batch-Grown}
use stask_service.Batching.Ticker.{
  Tally, put_off, after_release, one, settled, combine, gather, release_model, Admitted, released,
  batched, requeued, passed, admit_row, admit_found, admit_due, after_admission, release_all,
  admit_all, tick_once,
}

ruleset parts = (keeps_rules, grown_rules, dispatch_rules, membership_rules, join_batch-Grown)

module _ (rs : List Row) where
  put_off-Grown : (tid : Text) (n : ℕ) → Keeps (GrownFrom rs) (put_off tid n)
  unfolding put_off
  put_off-Grown tid n = search parts depth 12

  after_release-Grown :
      (tid : Text) (n : ℕ) (o : Option Released) → Keeps (GrownFrom rs) (after_release tid n o)
  unfolding after_release
  after_release-Grown tid n none = put_off-Grown tid n
  after_release-Grown tid n (some Released.ok) = Keeps-pure _
  after_release-Grown tid n (some no_slot) = put_off-Grown tid n
  after_release-Grown tid n (some skipped) = Keeps-pure _

  one-Grown : (n : ℕ) (tid : Text) → Keeps (GrownFrom rs) (one n tid)
  unfolding one
  one-Grown n tid = search (parts, after_release-Grown) depth 12

  settled-Grown : (m : Service Tally) → Keeps (GrownFrom rs) m → Keeps (GrownFrom rs) (settled m)
  unfolding settled pure
  settled-Grown m k = record { at = λ w h. k.at w h }

  combine-Grown : (a b : Result Tally) → Keeps (GrownFrom rs) (combine a b)
  unfolding combine
  combine-Grown (Service.ok a) (Service.ok b) = Keeps-pure _
  combine-Grown (Service.ok a) (raised e) = Keeps-raise e
  combine-Grown (raised e) b = Keeps-raise e

  gather-Grown : (n : ℕ) (tids : List Text) → Keeps (GrownFrom rs) (gather n tids)
  unfolding gather
  gather-Grown n [] = Keeps-pure _
  gather-Grown n (tid ∷ tids) =
      Keeps-bind _ _ (settled-Grown _ (one-Grown n tid))
        λ a. Keeps-bind _ _ (settled-Grown _ (gather-Grown n tids)) λ b. combine-Grown a b

  pub release_model-Grown : (key : Text) → Keeps (GrownFrom rs) (release_model key)
  unfolding release_model
  release_model-Grown key = search (parts, gather-Grown) depth 12

  admit_row-Grown : (tid : Text) (t : ℕ) (d : TaskData) → Keeps (GrownFrom rs) (admit_row tid t d)
  unfolding admit_row
  admit_row-Grown tid t d = search parts depth 12

  admit_found-Grown :
      (tid : Text) (t : ℕ) (o : Option Row) → Keeps (GrownFrom rs) (admit_found tid t o)
  unfolding admit_found
  admit_found-Grown tid t none = Keeps-pure _
  admit_found-Grown tid t (some r) =
      Keeps-if _ _ _ (admit_row-Grown tid t r.task_data) (Keeps-pure _)

  admit_due-Grown : (tid : Text) (t : ℕ) → Keeps (GrownFrom rs) (admit_due tid t)
  unfolding admit_due
  admit_due-Grown tid t = search (parts, admit_found-Grown) depth 12

  after_admission-Grown :
      (tid : Text) (n : ℕ) (o : Option Admitted) → Keeps (GrownFrom rs) (after_admission tid n o)
  unfolding after_admission
  after_admission-Grown tid n none = put_off-Grown tid n
  after_admission-Grown tid n (some released) = Keeps-pure _
  after_admission-Grown tid n (some batched) = Keeps-pure _
  after_admission-Grown tid n (some requeued) = put_off-Grown tid n
  after_admission-Grown tid n (some passed) = Keeps-pure _

  release_all-Grown : (keys : List Text) → Keeps (GrownFrom rs) (release_all keys)
  unfolding release_all
  release_all-Grown [] = Keeps-pure _
  release_all-Grown (key ∷ keys) =
      Keeps-bind _ _ (release_model-Grown key)
        λ a. Keeps-bind _ _ (release_all-Grown keys) (λ b. Keeps-pure _)

  admit_all-Grown : (t n : ℕ) (tids : List Text) → Keeps (GrownFrom rs) (admit_all t n tids)
  unfolding admit_all
  admit_all-Grown t n [] = Keeps-pure _
  admit_all-Grown t n (tid ∷ tids) = Keeps-bind _ _ (unschedule-Grown rs tid) λ x.
      Keeps-bind _ _
        (Keeps-catch _ _ (Keeps-bind _ _ (admit_due-Grown tid t) (λ r. Keeps-pure _))
          (λ e. Keeps-pure _))
        λ result.
          Keeps-bind _ _ (after_admission-Grown tid n result)
            λ a. Keeps-bind _ _ (admit_all-Grown t n tids) (λ b. Keeps-pure _)

  pub tick_once-Grown : Keeps (GrownFrom rs) tick_once
  unfolding tick_once
  tick_once-Grown = search (parts, release_all-Grown, admit_all-Grown) depth 12

-- However its calls end, a round of the ticker loses no row and moves rows along the state machine
-- only.
tick_once-Grows : (w : World) → Grows w.rows (tick_once w).1.rows
tick_once-Grows w = (tick_once-Grown w.rows).at w (Grows-refl w.rows)
