-- ===== src/Dynconf/Atomic.antt =====
-- app/services/dynconf.py, `set_many`: a write stores every update, or none of them.
use stask_service.Prelude.{
  ◌+◌, Text, text_eq, text_eq_iff, Bool, true, ltb, ◌&&◌, if◌then◌else◌, Option, none, some, List,
  [], ◌≡◌, refl, ◌⊎◌, inl, inr, subst, ap, sym, ◌∙◌, Bool-cases,
}
use stask_service.Policy.{Json, Fields, end, field}
use stask_service.Service.{World, Result, ok, raised}
use stask_service.Service.Keeps.{
  Keeps, Keeps-pure, Keeps-bind, Keeps-external, Keeps-catch, Keeps-gets, Keeps-if,
}
use stask_service.Service.Triples.{
  Triple, Post, Triple-bind, Triple-external, Triple-pure, Triple-raise, Triple-catch, Triple-weak,
  Triple-if, Triple-keeps, Triple-given,
}
use stask_service.Dynconf.{
  Kind, Value, Libraries, Cache, mutable, find, put, put_all, coerce, coerce_stored, reload, load,
  snapshot, effective_in, effective_value, merge_mapping, of_result, is_json, checked_update,
  payload_of, set_many,
}
use stask_service.Dynconf.Ranges.{Fits, coerce-Fits}
use stask_service.Dynconf.Merge.{Joined, merge_values-Joined}
use stask_service.Dynconf.Writes.{first, put-find, AreDistinct, put-AreDistinct, put_all-find}

module _ (Q : List (Text × Text) → Type 0) where
  -- a property of the hash
  abbrev Holds : World → Type 0
  Holds w = Q w.overrides

  reload-Holds : (lib : Libraries) → Keeps Holds (reload lib)
  unfolding reload
  reload-Holds lib = Keeps-catch _ _ (Keeps-external (λ w s h. h) _ (λ w h. h)) (λ e. Keeps-gets _)

  load-Holds : (lib : Libraries) (c : Cache) → Keeps Holds (load lib c)
  unfolding load
  load-Holds lib c = record {
    at = λ w h. (Keeps-if (ltb w.clock (c.at + 5)) _ _ (Keeps-pure c) (reload-Holds lib)).at w h;
  }

  snapshot-Holds : (lib : Libraries) (c : Cache) → Keeps Holds (snapshot lib c)
  unfolding snapshot
  snapshot-Holds lib c = Keeps-bind _ _ (load-Holds lib c) (λ d. Keeps-pure _)

-- The last update of a key
abbrev pub last_update : Text → Fields → Option Json
last_update key end = none
last_update key (field k raw fs) =
    first (last_update key fs) (if text_eq k key then some raw else none)

-- `lib`, whether the mode is `merge`, and the hash before the write
module _ (lib : Libraries) (merge : Bool) (hash : List (Text × Text)) where
  -- a value of the setting before the write, from the hash or from the environment
  abbrev pub WasInForce : Text → Kind → Value → Type 0
  WasInForce key kind v =
      (v ≡ lib.env key)
      ⊎ ((t : Text) × ((find key hash ≡ some t) × (coerce_stored lib kind t ≡ ok v)))

  -- what a write makes of the value `v` of an update
  abbrev pub Becomes : Text → Kind → Value → Value → Type 0
  Becomes key kind v u =
      if merge && is_json kind
      then ((current : Value) × (WasInForce key kind current × Joined current v u))
      else (u ≡ v)

  -- the text that is stored for an update of `key` with `raw`
  pub record Stored (key : Text) (raw : Json) (t : Text) : Type 0 where
    pub kind : Kind
    pub is_setting : find key mutable ≡ some kind
    pub given : Value
    pub coerced : coerce lib kind raw ≡ ok given
    pub fits : Fits lib.ttl kind given
    pub value : Value
    pub becomes : Becomes key kind given value
    pub text : t ≡ lib.dumps value

  -- what the hash has of a key afterwards, given its last update
  abbrev pub WrittenAt : Text → List (Text × Text) → Option Json → Type 0
  WrittenAt key after none = find key after ≡ find key hash
  WrittenAt key after (some raw) = (t : Text) × ((find key after ≡ some t) × Stored key raw t)

  abbrev pub IsWritten : Fields → List (Text × Text) → Type 0
  IsWritten updates after = (key : Text) → WrittenAt key after (last_update key updates)

  abbrev Still : World → Type 0
  Still w = w.overrides ≡ hash

  in_force :
      (key : Text) (kind : Kind) (o : Option Text)
      → find key hash ≡ o
      → WasInForce key kind (effective_in lib key kind o)
  unfolding effective_in
  in_force key kind none e = inl refl
  in_force key kind (some t) e = coerced (coerce_stored lib kind t) refl
    where
      coerced :
          (r : Result Value)
          → coerce_stored lib kind t ≡ r
          → WasInForce key kind (elim r [ ok v ↦ v | raised x ↦ lib.env key ])
      coerced (ok v) h = inr (t, (e, h))
      coerced (raised x) h = inl refl

  effective_value-WasInForce :
      (key : Text) (kind : Kind)
      → Triple Still (effective_value lib key kind) (λ v w. WasInForce key kind v × Still w) Still
  unfolding effective_value
  effective_value-WasInForce key kind =
      Triple-catch {E = Still} _ _
        (Triple-bind _ _
          (Triple-external {R = λ raw w. (raw ≡ hash) × Still w} (λ w s h. h) _ (λ w h. (h, h))
            (λ w h. h) (λ w h. h))
          (λ raw.
            Triple-pure _
              (λ w h. (in_force key kind (find key raw) (ap (find key) (sym h.0)), h.1))))
        (λ e. Triple-pure _ (λ w h. (inl refl, h)))

  stored :
      (key : Text) (raw : Json) (kind : Kind) (v u : Value)
      → find key mutable ≡ some kind
      → coerce lib kind raw ≡ ok v
      → Becomes key kind v u
      → Stored key raw (lib.dumps u)
  stored key raw kind v u found h b = record {
    kind = kind;
    is_setting = found;
    given = v;
    coerced = h;
    fits = coerce-Fits lib kind raw v h;
    value = u;
    becomes = b;
    text = refl;
  }

  of_result-same :
      (r : Result Value) → Triple Still (of_result r) (λ v w. (r ≡ ok v) × Still w) Still
  unfolding of_result
  of_result-same (ok v) = Triple-pure v (λ w h. (refl, h))
  of_result-same (raised e) = Triple-raise e (λ w h. h)

  merge_mapping-Becomes :
      (key : Text) (kind : Kind) (v : Value)
      → merge && is_json kind ≡ true
      → Triple Still (merge_mapping lib key kind v) (λ u w. Becomes key kind v u × Still w) Still
  unfolding merge_mapping
  merge_mapping-Becomes key kind v e =
      Triple-bind _ _ (effective_value-WasInForce key kind) λ current.
        Triple-pure _ (λ w h. (rw e (current, (h.0, merge_values-Joined current v)), h.1))

  checked_update-Stored :
      (key : Text) (raw : Json) (o : Option Kind)
      → find key mutable ≡ o
      → Triple Still
          (checked_update lib merge key raw o)
          (λ u w. Stored key raw (lib.dumps u) × Still w)
          Still
  unfolding checked_update
  checked_update-Stored key raw none found = Triple-raise _ (λ w h. h)
  checked_update-Stored key raw (some kind) found =
      Triple-bind _ _ (of_result-same (coerce lib kind raw)) λ v.
        Triple-given _ λ (h : coerce lib kind raw ≡ ok v).
          Triple-weak _ (λ w k. k) (λ u w k. (stored key raw kind v u found h k.0, k.1)) (λ w k. k)
            (Triple-if (merge && is_json kind) _ _ (merge_mapping-Becomes key kind v)
              (λ e. Triple-pure v (λ w k. (rw e refl, k))))

  -- what the payload has of a key, when the updates follow on `out`
  abbrev PreparedAt : List (Text × Text) → Text → List (Text × Text) → Option Json → Type 0
  PreparedAt out key p none = find key p ≡ find key out
  PreparedAt out key p (some raw) = (t : Text) × ((find key p ≡ some t) × Stored key raw t)

  abbrev Prepared : Fields → List (Text × Text) → List (Text × Text) → Type 0
  Prepared fs out p = AreDistinct p × ((key : Text) → PreparedAt out key p (last_update key fs))

  prepared_first :
      (key : Text) (raw : Json) (t j : Text) (out p : List (Text × Text)) (o : Option Json)
      → Stored key raw t
      → PreparedAt (put key t out) j p o
      → PreparedAt out j p (first o (if text_eq key j then some raw else none))
  prepared_first key raw t j out p (some x) s h = h
  prepared_first key raw t j out p none s h = elim (Bool-cases (text_eq key j)) [
    | inl e ↦ rw e (
      t,
      (
        h ∙ (put-find key t j out ∙ rw e refl),
        subst (λ k. Stored k raw t) ((text_eq_iff key j).0 e) s,
      ),
    )
    | inr e ↦ rw e (h ∙ (put-find key t j out ∙ rw e refl))
  ]

  payload_of-Prepared :
      (fs : Fields) (out : List (Text × Text))
      → AreDistinct out
      → Triple Still (payload_of lib merge fs out) (λ p w. Prepared fs out p × Still w) Still
  unfolding payload_of
  payload_of-Prepared end out d = Triple-pure out (λ w h. ((d, (λ j. refl)), h))
  payload_of-Prepared (field key raw fs) out d =
      Triple-bind _ _ (checked_update-Stored key raw (find key mutable) refl) λ v.
        Triple-given _ λ (s : Stored key raw (lib.dumps v)).
          Triple-weak _ (λ w h. h)
            (λ p w h. (
              (
                h.0.0,
                (λ j. prepared_first key raw (lib.dumps v) j out p (last_update j fs) s (h.0.1 j)),
              ),
              h.1,
            ))
            (λ w h. h)
            (payload_of-Prepared fs (put key (lib.dumps v) out)
              (put-AreDistinct key (lib.dumps v) out d))

  written_at :
      (key : Text) (p : List (Text × Text)) (o : Option Json)
      → AreDistinct p
      → PreparedAt [] key p o
      → WrittenAt key (put_all p hash) o
  unfolding find
  written_at key p none d h = put_all-find p hash key d ∙ rw h refl
  written_at key p (some raw) d (t, (f, s)) = (t, (put_all-find p hash key d ∙ rw f refl, s))

  put_all-IsWritten :
      (fs : Fields) (p after : List (Text × Text))
      → Prepared fs [] p
      → after ≡ hash
      → IsWritten fs (put_all p after)
  put_all-IsWritten fs p after (d, h) e =
      rw e (λ key. written_at key p (last_update key fs) d (h key))

  set_many-IsWritten :
      (fs : Fields) (c : Cache)
      → Triple Still
          (set_many lib merge fs c)
          (λ r w. IsWritten fs w.overrides)
          (λ w. Still w ⊎ IsWritten fs w.overrides)
  unfolding set_many
  set_many-IsWritten end c =
      Triple-weak _ (λ w h. h) (λ r w h. λ key. ap (find key) h) (λ w h. inl h)
        (Triple-keeps _ (snapshot-Holds (λ after. after ≡ hash) lib c))
  set_many-IsWritten (field key raw fs) c =
      Triple-bind _ _
        (Triple-weak _ (λ w h. h) (λ p w h. h) (λ w h. inl h)
          (payload_of-Prepared (field key raw fs) [] tt))
        λ p. Triple-given _ λ (ready : Prepared (field key raw fs) [] p).
          Triple-bind _ _
            (Triple-external {R = λ x w. IsWritten (field key raw fs) w.overrides} (λ w s h. h) _
              (λ w h. put_all-IsWritten (field key raw fs) p w.overrides ready h) (λ w h. inl h)
              (λ w h. inr (put_all-IsWritten (field key raw fs) p w.overrides ready h)))
            λ x.
              Triple-weak _ (λ w h. h) (λ r w h. h) (λ w h. inr h)
                (Triple-keeps _ (snapshot-Holds (IsWritten (field key raw fs)) lib _))

-- A write that returns has stored, for every key that it updates, a text of the value that the last
-- update of the key gives, a value of the kind and in the range of the setting; in the mode `merge`
-- a table is stored with the entries of the update and, under all other names, those of a table
-- that was in force before, of the hash or of the environment. All other keys are as they were. A
-- write that raises, however its calls end, has done the same, or has left the hash as it was.
pub set_many_all_or_none :
    (lib : Libraries) (merge : Bool) (updates : Fields) (c : Cache) (w : World)
    → Post
        (λ r v. IsWritten lib merge w.overrides updates v.overrides)
        (λ v. (v.overrides ≡ w.overrides) ⊎ IsWritten lib merge w.overrides updates v.overrides)
        (set_many lib merge updates c w).0
        (set_many lib merge updates c w).1
set_many_all_or_none lib merge updates c w =
    (set_many-IsWritten lib merge w.overrides updates c).after w refl
