-- ===== src/Dynconf/Growth.antt =====
-- The routes that change the settings leave the table of tasks alone.
use stask_service.Prelude.{◌+◌, Text, Bool, ltb, Option, none, some, List, [], ◌∷◌, refl}
use stask_service.Rows.{Row}
use stask_service.Policy.{Json, Fields, end, field}
use stask_service.Service.{Result, ok, raised}
use stask_service.Service.Keeps.{
  Keeps, Keeps-pure, Keeps-raise, Keeps-bind, Keeps-catch, Keeps-if, Keeps-gets, keeps_rules,
}
use stask_service.Store.Growth.{GrownFrom, external-Grown}
use stask_service.Dynconf.{
  Libraries, Kind, Value, Cache, reload, load, snapshot, effective_value, merge_mapping, of_result,
  checked_update, payload_of, set_many, reset, find, mutable, put,
}

module _ (rs : List Row) (lib : Libraries) where
  reload-Grown : Keeps (GrownFrom rs) (reload lib)
  unfolding reload
  reload-Grown = Keeps-catch _ _ (external-Grown rs _ (λ v. refl)) (λ e. Keeps-gets _)

  load-Grown : (c : Cache) → Keeps (GrownFrom rs) (load lib c)
  unfolding load
  load-Grown c = record {
    at = λ w h. (Keeps-if (ltb w.clock (c.at + 5)) _ _ (Keeps-pure c) reload-Grown).at w h;
  }

  snapshot-Grown : (c : Cache) → Keeps (GrownFrom rs) (snapshot lib c)
  unfolding snapshot
  snapshot-Grown c = Keeps-bind _ _ (load-Grown c) (λ d. Keeps-pure _)

  effective_value-Grown :
      (key : Text) (kind : Kind) → Keeps (GrownFrom rs) (effective_value lib key kind)
  unfolding effective_value
  effective_value-Grown key kind =
      Keeps-catch _ _ (Keeps-bind _ _ (external-Grown rs _ (λ v. refl)) (λ raw. Keeps-pure _))
        (λ e. Keeps-pure _)

  merge_mapping-Grown :
      (key : Text) (kind : Kind) (new : Value)
      → Keeps (GrownFrom rs) (merge_mapping lib key kind new)
  unfolding merge_mapping
  merge_mapping-Grown key kind new =
      Keeps-bind _ _ (effective_value-Grown key kind) (λ current. Keeps-pure _)

  of_result-Grown : (r : Result Value) → Keeps (GrownFrom rs) (of_result r)
  unfolding of_result
  of_result-Grown (ok v) = Keeps-pure v
  of_result-Grown (raised e) = Keeps-raise e

  checked_update-Grown :
      (merge : Bool) (key : Text) (raw : Json) (o : Option Kind)
      → Keeps (GrownFrom rs) (checked_update lib merge key raw o)
  unfolding checked_update
  checked_update-Grown merge key raw none = Keeps-raise _
  checked_update-Grown merge key raw (some kind) =
      search (keeps_rules, of_result-Grown, merge_mapping-Grown) depth 12

  payload_of-Grown :
      (merge : Bool) (fs : Fields) (out : List (Text × Text))
      → Keeps (GrownFrom rs) (payload_of lib merge fs out)
  unfolding payload_of
  payload_of-Grown merge end out = Keeps-pure out
  payload_of-Grown merge (field key raw fs) out =
      Keeps-bind _ _ (checked_update-Grown merge key raw (find key mutable))
        (λ value. payload_of-Grown merge fs (put key (lib.dumps value) out))

  pub set_many-Grown :
      (merge : Bool) (fs : Fields) (c : Cache) → Keeps (GrownFrom rs) (set_many lib merge fs c)
  unfolding set_many
  set_many-Grown merge end c = snapshot-Grown c
  set_many-Grown merge (field key raw fs) c =
      Keeps-bind _ _ (payload_of-Grown merge (field key raw fs) [])
        λ payload. Keeps-bind _ _ (external-Grown rs _ (λ v. refl)) (λ x. snapshot-Grown _)

  pub reset-Grown : (keys : List Text) (c : Cache) → Keeps (GrownFrom rs) (reset lib keys c)
  unfolding reset
  reset-Grown [] c = Keeps-bind _ _ (external-Grown rs _ (λ v. refl)) (λ x. snapshot-Grown _)
  reset-Grown (k ∷ keys) c =
      Keeps-if _ _ _ (Keeps-bind _ _ (external-Grown rs _ (λ v. refl)) (λ x. snapshot-Grown _))
        (Keeps-raise _)
