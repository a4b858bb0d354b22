-- ===== src/Dynconf/Ranges.antt =====
-- app/services/dynconf.py: the kinds and the ranges of the values that the service works with.
use stask_service.Prelude.{
  ℕ, ◌+◌, ◌≤◌, Text, text_eq, strip, lower, true, ltb, leb, ◌&&◌, if◌then◌else◌, Option, none, some,
  length, List, [], ◌∷◌, ◌≡◌, refl, arith, Bool-cases, text_eq_iff, map, inl, inr, ap, All, subst,
  sym,
}
use stask_service.Prelude.Int.{ℤ, pos, negsuc}
use stask_service.Policy
use stask_service.Policy.{
  Json, boolean, number, text, array, object, Table, Checked, valid, invalid, max_entries,
}
use stask_service.Policy.Validate.{validate}
use stask_service.Policy.Validate.Entries.{length-validate}
use stask_service.Policy.Validate.Soundness.{TableIsSound, validate-TableIsSound}
use stask_service.Service.{World, Result, ok, raised, pure}
use stask_service.Service.Triples.{
  Triple, Post, Triple-bind, Triple-external, Triple-pure, Triple-catch, Triple-if, Triple-gets,
}
use stask_service.Dynconf.{
  Kind, int, bool, json, Value, whole, switch, policies, Values, mutable, find, or_else, Libraries,
  in_range, to_int, bool_of_text, to_bool, of_checked, of_loaded, to_policies, coerce,
  coerce_stored, Cache, keep_valid, parse_one, parse, reload, load, setting_keys, snapshot_of,
  value_error, get_runtime_config,
}

-- what the check of a table lets through
abbrev pub TableFits : ℕ → Table → Type 0
TableFits ttl t = TableIsSound ttl t × (length t ≤ max_entries)

-- A value of the kind of its setting, in its range.
abbrev pub Fits : ℕ → Kind → Value → Type 0
Fits ttl (int low high) (whole n) = (low ≤ n) × (n ≤ high)
Fits ttl bool (switch b) = Unit
Fits ttl json (policies t) = TableFits ttl t
Fits ttl _ _ = ⊥

-- a key that is not in the table of settings may have any value
abbrev pub FitsFound : ℕ → Option Kind → Value → Type 0
FitsFound ttl none v = Unit
FitsFound ttl (some kind) v = Fits ttl kind v

module _ (lib : Libraries) where
  abbrev pub FitsKey : Text → Value → Type 0
  FitsKey key v = FitsFound lib.ttl (find key mutable) v

  abbrev pub AreInRange : Values → Type 0
  AreInRange values = All (λ p. FitsKey p.0 p.1) values

  in_range-Fits :
      (low high : ℕ) (r : Result ℤ) (v : Value)
      → in_range low high r ≡ ok v
      → Fits lib.ttl (int low high) v
  unfolding in_range
  in_range-Fits low high (ok (pos n)) v h = elim (Bool-cases (leb low n && leb n high)) [
    | inl e ↦ subst (Fits lib.ttl (int low high)) (whole_of n v e h) (ground arith, ground arith)
    | inr e ↦ absurd (ground arith)
  ]
    where
      whole_of :
          (n : ℕ) (v : Value)
          → leb low n && leb n high ≡ true
          → (if leb low n && leb n high then ok (whole n) else raised value_error) ≡ ok v
          → whole n ≡ v
      whole_of n v e h = ground arith
  in_range-Fits low high (ok (negsuc n)) v h = cc
  in_range-Fits low high (raised e) v h = cc

  bool_of_text-Fits : (s : Text) (v : Value) → bool_of_text s ≡ ok v → Fits lib.ttl bool v
  unfolding bool_of_text
  bool_of_text-Fits s (switch b) h = tt
  bool_of_text-Fits s v h = ground arith

  to_bool-Fits : (raw : Json) (v : Value) → to_bool raw ≡ ok v → Fits lib.ttl bool v
  unfolding to_bool
  to_bool-Fits raw (switch b) h = tt
  to_bool-Fits (boolean b) v h = cc
  to_bool-Fits (text s) v h = bool_of_text-Fits (lower (strip s)) v h
  to_bool-Fits (number (pos n)) v h = ground arith
  to_bool-Fits raw v h = cc

  validate-TableFits :
      (raw : Json) (t : Table) → validate lib.loads lib.ttl raw ≡ valid t → TableFits lib.ttl t
  validate-TableFits raw t h =
      (validate-TableIsSound lib.loads lib.ttl raw t h, length-validate lib.loads lib.ttl raw t h)

  of_checked-Fits :
      (c : Checked Table) (v : Value)
      → ((t : Table) → c ≡ valid t → TableFits lib.ttl t)
      → of_checked c ≡ ok v
      → Fits lib.ttl json v
  unfolding of_checked
  of_checked-Fits (valid t) (policies u) k h = k u cc
  of_checked-Fits (valid t) v k h = cc
  of_checked-Fits invalid v k h = cc

  of_loaded-Fits : (o : Option Json) (v : Value) → of_loaded lib o ≡ ok v → Fits lib.ttl json v
  unfolding of_loaded
  of_loaded-Fits none v h = cc
  of_loaded-Fits (some raw) v h =
      of_checked-Fits (validate lib.loads lib.ttl raw) v (λ t. validate-TableFits raw t) h

  to_policies-Fits : (raw : Json) (v : Value) → to_policies lib raw ≡ ok v → Fits lib.ttl json v
  unfolding to_policies
  to_policies-Fits Policy.null (policies t) h =
      subst (Fits lib.ttl json) {x = policies []} {y = policies t} (cc) (tt, omega arith)
  to_policies-Fits Policy.null v h = cc
  to_policies-Fits (text []) v h =
      subst (Fits lib.ttl json) {x = policies []} {y = v} (cc) (tt, omega arith)
  to_policies-Fits (text (c ∷ s)) v h = of_loaded-Fits (lib.loads (c ∷ s)) v h
  to_policies-Fits raw v h =
      of_checked-Fits (validate lib.loads lib.ttl raw) v (λ t. validate-TableFits raw t) h

  -- the check of a setting lets through what its specification allows
  pub coerce-Fits :
      (kind : Kind) (raw : Json) (v : Value) → coerce lib kind raw ≡ ok v → Fits lib.ttl kind v
  unfolding coerce
  coerce-Fits (int low high) raw v h = in_range-Fits low high (to_int lib raw) v h
  coerce-Fits bool raw v h = to_bool-Fits raw v h
  coerce-Fits json raw v h = to_policies-Fits raw v h

  pub coerce_stored-Fits :
      (kind : Kind) (value : Text) (v : Value)
      → coerce_stored lib kind value ≡ ok v
      → Fits lib.ttl kind v
  unfolding coerce_stored
  coerce_stored-Fits kind value v h = loaded (lib.loads value) h
    where
      loaded :
          (o : Option Json)
          → (elim o [ none ↦ raised value_error | some raw ↦ coerce lib kind raw ]) ≡ ok v
          → Fits lib.ttl kind v
      loaded none h = cc
      loaded (some raw) h = coerce-Fits kind raw v h

  keep_valid-AreInRange :
      (key : Text) (r : Result Value) (rest : Values)
      → ((v : Value) → r ≡ ok v → FitsKey key v)
      → AreInRange rest
      → AreInRange (keep_valid key r rest)
  unfolding keep_valid
  keep_valid-AreInRange key (ok v) rest k s = (k v refl, s)
  keep_valid-AreInRange key (raised e) rest k s = s

  parse_one-AreInRange :
      (key value : Text) (o : Option Kind) (rest : Values)
      → find key mutable ≡ o
      → AreInRange rest
      → AreInRange (parse_one lib key value o rest)
  unfolding parse_one
  parse_one-AreInRange key value none rest e s = s
  parse_one-AreInRange key value (some kind) rest e s =
      keep_valid-AreInRange key (coerce_stored lib kind value) rest
        (λ v h. subst (λ o. FitsFound lib.ttl o v) (sym e) (coerce_stored-Fits kind value v h)) s

  pub parse-AreInRange : (raw : List (Text × Text)) → AreInRange (parse lib raw)
  unfolding parse
  parse-AreInRange [] = tt
  parse-AreInRange ((key, value) ∷ raw) =
      parse_one-AreInRange key value (find key mutable) (parse lib raw) refl (parse-AreInRange raw)

  reload-AreInRange : Triple (λ w. Unit {0}) (reload lib) (λ c w. AreInRange c.values) (λ w. ⊥)
  unfolding reload
  reload-AreInRange =
      Triple-catch {E = λ w. Unit {0}} _ _
        (Triple-external (λ w s h. tt) _ (λ v h. parse-AreInRange v.overrides) (λ v h. tt)
          (λ v h. tt))
        (λ e. Triple-gets _ (λ v h. tt))

  pub load-AreInRange :
      (c : Cache)
      → AreInRange c.values
      → Triple (λ w. Unit {0}) (load lib c) (λ c' w. AreInRange c'.values) (λ w. ⊥)
  unfolding load
  load-AreInRange c s = record {
    after = λ w h.
        (Triple-if (ltb w.clock (c.at + 5)) (pure c) (reload lib) (λ e. Triple-pure c (λ v k. s))
            (λ e. reload-AreInRange)).after
          w h;
  }

  find-FitsKey :
      (key : Text) (values : Values) (d : Value)
      → FitsKey key d
      → AreInRange values
      → FitsKey key (or_else d (find key values))
  unfolding find or_else
  find-FitsKey key [] d k s = k
  find-FitsKey key ((j, v) ∷ values) d k s = elim (Bool-cases (text_eq j key)) [
    | inl e ↦ rw e (subst (λ x. FitsKey x v) ((text_eq_iff j key).0 e) s.0)
    | inr e ↦ rw e (find-FitsKey key values d k s.1)
  ]

  snapshot_of-keys :
      (values : Values) (specs : List (Text × Kind))
      → map (λ p. p.0) (snapshot_of lib values specs) ≡ setting_keys specs
  unfolding snapshot_of
  snapshot_of-keys values [] = refl
  snapshot_of-keys values ((key, json) ∷ specs) = snapshot_of-keys values specs
  snapshot_of-keys values ((key, bool) ∷ specs) =
      ap (λ ks. key ∷ ks) (snapshot_of-keys values specs)
  snapshot_of-keys values ((key, int low high) ∷ specs) =
      ap (λ ks. key ∷ ks) (snapshot_of-keys values specs)

  snapshot_of-AreInRange :
      (values : Values) (specs : List (Text × Kind))
      → ((key : Text) → FitsKey key (lib.env key))
      → AreInRange values
      → AreInRange (snapshot_of lib values specs)
  unfolding snapshot_of
  snapshot_of-AreInRange values [] env s = tt
  snapshot_of-AreInRange values ((key, json) ∷ specs) env s =
      snapshot_of-AreInRange values specs env s
  snapshot_of-AreInRange values ((key, _) ∷ specs) env s =
      (find-FitsKey key values (lib.env key) (env key) s, snapshot_of-AreInRange values specs env s)

  -- The snapshot that `get_runtime_config` returns, and the cache that it leaves
  abbrev pub IsSnapshot : Values × Cache → Type 0
  IsSnapshot r =
      AreInRange r.0 × AreInRange r.1.values × (map (λ p. p.0) r.0 ≡ setting_keys mutable)

  snapshot_of-IsSnapshot :
      (c : Cache)
      → ((key : Text) → FitsKey key (lib.env key))
      → AreInRange c.values
      → IsSnapshot (snapshot_of lib c.values mutable, c)
  snapshot_of-IsSnapshot c env s =
      (snapshot_of-AreInRange c.values mutable env s, s, snapshot_of-keys c.values mutable)

  -- Whatever stands in Redis and however its call ends, where the settings of the environment and
  -- of the cache have the kinds and the ranges of their specifications: `get_runtime_config`
  -- returns every key of the snapshot with a value of its kind, in its range, and leaves such a
  -- cache.
  pub get_runtime_config-AreInRange :
      (c : Cache) (w : World)
      → ((key : Text) → FitsKey key (lib.env key))
      → AreInRange c.values
      → Post
          (λ r v. IsSnapshot r)
          (λ v. ⊥)
          (get_runtime_config lib c w).0
          (get_runtime_config lib c w).1
  unfolding get_runtime_config
  get_runtime_config-AreInRange c w env s =
      (Triple-bind _ _ (load-AreInRange c s)
          (λ c'. Triple-pure _ (λ v. snapshot_of-IsSnapshot c' env))).after
        w tt
