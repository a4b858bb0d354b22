-- ===== src/Sweeper/Slots/Repair.antt =====
-- What a recalibration makes of the counters: those of keys that some active task holds become true,
-- and those of keys that no active task holds stay as they are.
use stask_service.Prelude.{ℕ, true, false, List, [], ◌∷◌, ◌≡◌, refl, ◌∙◌, ap, subst, arith}
use stask_service.Prelude.Int.{ℤ, pos, negsuc}
use stask_service.Rows.{Row}
use stask_service.Slots.Acquire.{key_eq-eq}
use stask_service.Slots.{SlotKey, token_slot, model_token_slot, global_slot, Counters, write}
use stask_service.Service
use stask_service.Service.{Result, raised, World, Service, pure, external, catch, ◌>>=◌}
use stask_service.Service.Triples.{
  Triple, Triple-bind, Triple-answered, Triple-given, Triple-if, Triple-pure, Triple-catch, Post,
}
use stask_service.Gate.{current, reset}
use stask_service.Sweeper.Slots.{
  Holds, Truth, group_by, active_counts, is_count, fix, fix_all, recalibrate_slots, holds_token,
  holds_model_token, holds_global,
}
use stask_service.Sweeper.Slots.Counts.{held_by, is_key, written, repaired, written-repaired}

-- A world in which every call is answered, with these rows and counters
abbrev Calm : List Row → Counters → World → Type 0
Calm rs c w = (w.script ≡ []) × (w.rows ≡ rs) × ((j : SlotKey) → w.counters j ≡ c j)

module _ (rs : List Row) where
  fix-Calm :
      (k : SlotKey) (n : ℕ) (c : Counters)
      → Triple (Calm rs c) (fix (k, n)) (λ b. Calm rs (write k (pos n) c)) (λ w. ⊥)
  unfolding fix current reset
  fix-Calm k n c =
      Triple-bind _ _
        (Triple-answered {R = λ z w. (z ≡ c k) × Calm rs c w} (λ w h. h.0) _ (λ w h. (h.2 k, h)))
        λ z.
          Triple-if (is_count z n) _ _
            (λ e. Triple-pure false (λ w h. (h.1.0, h.1.1, λ j. same z w e h j)))
            (λ e.
              Triple-bind _ _
                (Triple-answered {R = λ _. Calm rs (write k (pos n) c)} (λ w h. h.1.0) _
                  (λ w h. (h.1.0, h.1.1, λ j. changed w j (h.1.2 j))))
                (λ _. Triple-pure true (λ w h. h)))
    where
      changed :
          (w : World) (j : SlotKey)
          → w.counters j ≡ c j
          → write k (pos n) w.counters j ≡ write k (pos n) c j
      changed w j h = ground (arith, h)

      same :
          (z : ℤ) (w : World)
          → is_count z n ≡ true
          → (z ≡ c k) × Calm rs c w
          → (j : SlotKey) → w.counters j ≡ write k (pos n) c j
      same (pos m) w e h j = ground (arith, h.1.2 j, key_eq-eq k j, h.0)
      same (negsuc m) w e h j = ground arith

  fix_all-Calm :
      (t : Truth) (c : Counters)
      → Triple (Calm rs c) (fix_all t) (λ n. Calm rs (written t c)) (λ w. ⊥)
  unfolding fix_all
  fix_all-Calm [] c = Triple-pure _ (λ w h. h)
  fix_all-Calm ((k, n) ∷ t) c =
      Triple-bind _ _
        (Triple-catch _ _ (fix-Calm k n c) (λ e. Triple-pure false (λ w h. elim h [ ])))
        λ done. Triple-bind _ _ (fix_all-Calm t (write k (pos n) c)) (λ m. Triple-pure _ (λ w h. h))

  truth-Calm :
      (holds : Holds) (c : Counters)
      → Triple
          (Calm rs c)
          (active_counts holds)
          (λ t w. (t ≡ group_by holds rs) × Calm rs c w)
          (λ w. ⊥)
  unfolding active_counts
  truth-Calm holds c = Triple-answered (λ w h. h.0) _ (λ w h. (ap (λ r. group_by holds r) h.1, h))

  abbrev all_written : Truth → Truth → Truth → Counters → Counters
  all_written a b t c = written t (written b (written a c))

  recalibrate_slots-Calm :
      (c : Counters)
      → Triple
          (Calm rs c)
          recalibrate_slots
          (λ x. Calm rs (
            all_written
              (group_by holds_token rs)
              (group_by holds_model_token rs)
              (group_by holds_global rs)
              c))
          (λ w. ⊥)
  unfolding recalibrate_slots
  recalibrate_slots-Calm c = Triple-bind _ _ (truth-Calm holds_token c) λ a. Triple-given _ λ p.
      Triple-bind _ _ (truth-Calm holds_model_token c) λ b. Triple-given _ λ q.
        Triple-bind _ _ (truth-Calm holds_global c) λ t. Triple-given _ λ r.
          Triple-bind _ _ (fix_all-Calm a c) λ x.
            Triple-bind _ _ (fix_all-Calm b (written a c)) λ y.
              Triple-bind _ _ (fix_all-Calm t (written b (written a c))) λ z. Triple-pure tt (λ w h.
                (
                  h.0,
                  h.1,
                  λ j.
                      subst
                        (λ a.
                          w.counters j
                          ≡ all_written a (group_by holds_model_token rs) (group_by holds_global rs)
                              c j)
                        p
                        (subst (λ b. w.counters j ≡ all_written a b (group_by holds_global rs) c j)
                          q (subst (λ t. w.counters j ≡ all_written a b t c j) r (h.2 j))),
                ))

-- the layer of a key
abbrev pub layer_of : SlotKey → Holds
layer_of (token_slot a) = holds_token
layer_of (model_token_slot a m) = holds_model_token
layer_of (global_slot m) = holds_global

read : (P : World → Type 0) (r : Result (Unit {0})) (w : World) → Post (λ x. P) (λ w. ⊥) r w → P w
read P (Service.ok x) w h = h
read P (raised e) w h = elim h [ ]

zero_held :
    (holds : Holds) (k : SlotKey)
    → ((r : Row) → is_key k (holds r) ≡ false)
    → (rs : List Row) → held_by holds k rs ≡ 0
zero_held holds k h [] = refl
zero_held holds k h (r ∷ rs) = rw (h r, zero_held holds k h rs) refl

module _ (rs : List Row) (c : Counters) where
  abbrev outcome : Counters
  outcome =
      written (group_by holds_global rs)
        (written (group_by holds_model_token rs) (written (group_by holds_token rs) c))

  outcome-repaired : (j : SlotKey) → outcome j ≡ repaired (held_by (layer_of j) j rs) (c j)
  outcome-repaired (token_slot a) = ground (
    arith,
    written-repaired holds_token rs c (token_slot a),
    written-repaired holds_model_token rs (written (group_by holds_token rs) c) (token_slot a),
    written-repaired holds_global rs
        (written (group_by holds_model_token rs) (written (group_by holds_token rs) c))
        (token_slot a),
    zero_held holds_model_token (token_slot a) (λ r. ground arith) rs,
    zero_held holds_global (token_slot a) (λ r. ground arith) rs,
  )
  outcome-repaired (model_token_slot a m) = ground (
    arith,
    written-repaired holds_token rs c (model_token_slot a m),
    written-repaired holds_model_token rs (written (group_by holds_token rs) c)
        (model_token_slot a m),
    written-repaired holds_global rs
        (written (group_by holds_model_token rs) (written (group_by holds_token rs) c))
        (model_token_slot a m),
    zero_held holds_token (model_token_slot a m) (λ r. ground arith) rs,
    zero_held holds_global (model_token_slot a m) (λ r. ground arith) rs,
  )
  outcome-repaired (global_slot m) = ground (
    arith,
    written-repaired holds_token rs c (global_slot m),
    written-repaired holds_model_token rs (written (group_by holds_token rs) c) (global_slot m),
    written-repaired holds_global rs
        (written (group_by holds_model_token rs) (written (group_by holds_token rs) c))
        (global_slot m),
    zero_held holds_token (global_slot m) (λ r. ground arith) rs,
    zero_held holds_model_token (global_slot m) (λ r. ground arith) rs,
  )

-- Where every call is answered, a recalibration gives the counter of each key the number of active
-- tasks that hold the key in its layer, but it leaves the counter of a key that no task holds as it
-- was.
pub recalibrate_slots-repaired :
    (w : World) (j : SlotKey)
    → w.script ≡ []
    → (recalibrate_slots w).1.counters j ≡ repaired (held_by (layer_of j) j w.rows) (w.counters j)
recalibrate_slots-repaired w j calm =
    let done =
      read _ (recalibrate_slots w).0 (recalibrate_slots w).1
        ((recalibrate_slots-Calm w.rows w.counters).after w (calm, refl, λ k. refl)) in
    done.2 j ∙ outcome-repaired w.rows w.counters j
