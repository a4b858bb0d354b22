-- ===== src/Sweeper/Slots.antt =====
-- The recalibration of the slots: app/services/sweeper.py, and the counts of
-- app/services/taskstore/_read.py with their predicates SQL_HOLDS_LAYER1 to SQL_HOLDS_LAYER3.
pub mod Counts
pub mod Repair
pub mod Growth
use stask_service.Prelude.{
  ℕ, suc, ◌/◌, ◌%◌, Text, codes, Bool, true, false, not, leb, ◌&&◌, ◌==◌, if◌then◌else◌, Option,
  none, some, List, [], ◌∷◌,
}
use stask_service.Prelude.Int.{ℤ, pos, negsuc}
use stask_service.Schemas.{active, is_among}
use stask_service.Rows.{Row, TaskData}
use stask_service.Slots.{SlotKey, token_slot, model_token_slot, global_slot, key_eq}
use stask_service.Service.{World, Service, pure, external, catch, ◌>>=◌, ◌>>◌}
use stask_service.Gate.{current, reset, is_blank}

-- the key that a row holds in one layer
abbrev pub Holds : Type 0
Holds = Row → Option SlotKey

abbrev when_held : Bool → SlotKey → Option SlotKey
when_held b k = if b then some k else none

abbrev pub holds_token : Holds
holds_token r =
    let d = r.task_data in
    when_held (is_among r.status active && (not (is_blank d.token_hash) && d.slot_flags % 2 == 1))
      (token_slot d.token_hash)

abbrev pub holds_model_token : Holds
holds_model_token r =
    let d = r.task_data in
    when_held
      (is_among r.status active
        && (not (is_blank d.token_hash)
            && (not (is_blank d.slot_model) && d.slot_flags / 2 % 2 == 1)))
      (model_token_slot d.token_hash d.slot_model)

abbrev pub holds_global : Holds
holds_global r =
    let d = r.task_data in
    when_held (is_among r.status active && (not (is_blank d.slot_model) && leb 4 d.slot_flags))
      (global_slot d.slot_model)

abbrev pub Truth : Type 0
Truth = List (SlotKey × ℕ)

-- SELECT key, COUNT(*) … GROUP BY key
unfoldable pub add_one : SlotKey → Truth → Truth
add_one k [] = (k, 1) ∷ []
add_one k ((j, n) ∷ t) =
    let rest = add_one k t in if key_eq j k then (j, suc n) ∷ t else (j, n) ∷ rest

abbrev add_held : Option SlotKey → Truth → Truth
add_held none t = t
add_held (some k) t = add_one k t

unfoldable pub group_by : Holds → List Row → Truth
group_by holds [] = []
group_by holds (r ∷ rs) = add_held (holds r) (group_by holds rs)

-- active_counts_by_token, active_counts_by_model_token and active_counts_by_model
unfoldable pub active_counts : Holds → Service Truth
active_counts holds = external (λ w. (group_by holds w.rows, w))

abbrev is_count : ℤ → ℕ → Bool
is_count (pos m) n = m == n
is_count (negsuc m) n = false

-- `fix_token`, `fix_model_token` and `fix_model`; an exception leaves the item alone
unfoldable pub fix : SlotKey × ℕ → Service Bool
fix (k, count) = do
  c ← current k
  if is_count c count then pure false else (do reset k count; pure true)

-- `_gather_bounded` with one of them
unfoldable pub fix_all : Truth → Service ℕ
fix_all [] = pure 0
fix_all (item ∷ t) =
    let rest = fix_all t in
    (do done ← catch (fix item) (λ _. pure false); n ← rest; pure (if done then suc n else n))

-- the body of `recalibrate_slots` under its lock
unfoldable pub recalibrate_slots : Service (Unit {0})
recalibrate_slots = do
  token_truth ← active_counts holds_token
  mt_truth ← active_counts holds_model_token
  model_truth ← active_counts holds_global
  _ ← fix_all token_truth
  _ ← fix_all mt_truth
  _ ← fix_all model_truth
  pure tt
