-- ===== src/Sweeper/Slots/Counts.antt =====
-- The counts of the rows that hold a key, and what writing them makes of the counters.
use stask_service.Prelude.{
  ℕ, suc, text_eq_refl, Bool, true, false, ◌==◌, if◌then◌else◌, Option, none, some, List, [], ◌∷◌,
  ◌≡◌, refl, arith, Bool-cases, inl, inr,
}
use stask_service.Prelude.Int.{ℤ, pos}
use stask_service.Rows.{Row}
use stask_service.Slots.Acquire.{key_eq-eq}
use stask_service.Slots.{
  SlotKey, token_slot, model_token_slot, global_slot, key_eq, Counters, write,
}
use stask_service.Sweeper.Slots.{Holds, Truth, add_one, add_held, group_by}

key_eq_refl : (a : SlotKey) → key_eq a a ≡ true
key_eq_refl (token_slot a) = text_eq_refl a
key_eq_refl (model_token_slot a m) = ground (arith, text_eq_refl a, text_eq_refl m)
key_eq_refl (global_slot a) = text_eq_refl a

-- how many rows hold the key
abbrev pub is_key : SlotKey → Option SlotKey → Bool
is_key k none = false
is_key k (some j) = key_eq j k

abbrev pub held_by : Holds → SlotKey → List Row → ℕ
held_by holds k [] = 0
held_by holds k (r ∷ rs) = let n = held_by holds k rs in if is_key k (holds r) then suc n else n

-- the first count of a key
abbrev first : SlotKey → Truth → Option ℕ
first j [] = none
first j ((k, n) ∷ t) = if key_eq k j then some n else first j t

abbrev Distinct : Truth → Type 0
Distinct [] = Unit
Distinct ((k, n) ∷ t) = (first k t ≡ none) × Distinct t

abbrev one_more : Option ℕ → Option ℕ
one_more none = some 1
one_more (some n) = some (suc n)

first-add_one :
    (j k : SlotKey) (t : Truth)
    → first j (add_one k t) ≡ (if key_eq k j then one_more (first j t) else first j t)
unfolding add_one
first-add_one j k [] = ground arith
first-add_one j k ((i, n) ∷ t) =
    ground (arith, first-add_one j k t, key_eq-eq i k, key_eq-eq i j, key_eq-eq k j, key_eq_refl j)

Distinct-add_one : (k : SlotKey) (t : Truth) → Distinct t → Distinct (add_one k t)
unfolding add_one
Distinct-add_one k [] h = (refl, tt)
Distinct-add_one k ((i, n) ∷ t) h = elim (Bool-cases (key_eq i k)) [
  | inl e ↦ rw e h
  | inr e ↦
      rw e (
        ground (arith, first-add_one i k t, key_eq-eq k i, key_eq_refl i),
        Distinct-add_one k t h.1,
      )
]

add_held-Distinct : (o : Option SlotKey) (t : Truth) → Distinct t → Distinct (add_held o t)
add_held-Distinct none t h = h
add_held-Distinct (some k) t h = Distinct-add_one k t h

abbrev counted : ℕ → Option ℕ
counted n = if n == 0 then none else some n

add_held-first :
    (j : SlotKey) (o : Option SlotKey) (t : Truth) (n : ℕ)
    → first j t ≡ counted n
    → first j (add_held o t) ≡ counted (if is_key j o then suc n else n)
add_held-first j none t n h = h
add_held-first j (some k) t n h = ground (arith, first-add_one j k t)

module _ (holds : Holds) where
  group_by-Distinct : (rs : List Row) → Distinct (group_by holds rs)
  unfolding group_by
  group_by-Distinct [] = tt
  group_by-Distinct (r ∷ rs) =
      add_held-Distinct (holds r) (group_by holds rs) (group_by-Distinct rs)

  group_by-first :
      (j : SlotKey) (rs : List Row) → first j (group_by holds rs) ≡ counted (held_by holds j rs)
  unfolding group_by
  group_by-first j [] = refl
  group_by-first j (r ∷ rs) =
      add_held-first j (holds r) (group_by holds rs) (held_by holds j rs) (group_by-first j rs)

-- the counters after the counts of a truth were written
abbrev pub written : Truth → Counters → Counters
written [] c = c
written ((k, n) ∷ t) c = written t (write k (pos n) c)

abbrev or_old : Option ℕ → ℤ → ℤ
or_old none z = z
or_old (some n) z = pos n

written-first :
    (t : Truth) (c : Counters) (j : SlotKey) → Distinct t → written t c j ≡ or_old (first j t) (c j)
written-first [] c j h = refl
written-first ((k, n) ∷ t) c j h =
    ground (arith, written-first t (write k (pos n) c) j h.1, key_eq-eq k j)

-- the true count, or the old value where nothing holds the key
abbrev pub repaired : ℕ → ℤ → ℤ
repaired n z = if n == 0 then z else pos n

pub written-repaired :
    (holds : Holds) (rs : List Row) (c : Counters) (j : SlotKey)
    → written (group_by holds rs) c j ≡ repaired (held_by holds j rs) (c j)
written-repaired holds rs c j = ground (
  arith,
  written-first (group_by holds rs) c j (group_by-Distinct holds rs),
  group_by-first holds j rs,
)
