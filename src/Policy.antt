-- ===== src/Policy.antt =====
-- app/services/modelpolicy.py: the table of policies, its check on the write side, and the policy
-- of a task.
pub mod Validate
pub mod Resolve
use stask_service.Prelude.{
  ℕ, ◌+◌, ◌≤◌, Text, text_eq, codes, strip, lower, Bool, true, false, not, ◌&&◌, ◌||◌, ltb, leb,
  ◌==◌, if◌then◌else◌, length, Option, none, some, List, [], ◌∷◌, ◌++◌,
}
use stask_service.Prelude.Int.{ℤ, pos, negsuc}
use stask_service.Prelude.Decimal.{int_of_text}

-- A JSON value, as `json.loads` returns it; `real` is a number that is not an integer.
mutual
  pub data Json : Type 0 where
    null real : Json
    boolean : Bool → Json
    number : ℤ → Json
    text : Text → Json
    array : Items → Json
    object : Fields → Json

  pub data Items : Type 0 where
    nil : Items
    cons : Json → Items → Items

  pub data Fields : Type 0 where
    end : Fields
    field : Text → Json → Fields → Fields

abbrev pub unknown_model : Text
unknown_model = codes "__unknown__"

abbrev pub default_key : Text
default_key = codes "__default__"

abbrev pub max_batch : ℕ
max_batch = 1000

abbrev pub max_batch_wait : ℕ
max_batch_wait = 3600

abbrev pub max_limit : ℕ
max_limit = 10000

abbrev pub max_entries : ℕ
max_entries = 256

abbrev pub tokenceiling_margin : ℕ
tokenceiling_margin = 600

or_unknown : Text → Text
or_unknown [] = unknown_model
or_unknown (c ∷ s) = c ∷ s

unfoldable pub normalize_model : Text → Text
unfolding or_unknown strip lower
normalize_model model = or_unknown (lower (strip model))

pub record ResolvedPolicy : Type 0 where
  pub batch : ℕ
  pub batch_wait : ℕ
  pub limit_per_token : ℕ
  pub limit_model_token : ℕ
  pub limit_global : ℕ
  pub source : Text
  pub reject_when_full : ℕ

unfoldable pub layered_at_submit : ResolvedPolicy → Bool
layered_at_submit p =
    ltb 0 p.reject_when_full
    && (ltb p.batch 2 && (ltb 0 p.limit_model_token || ltb 0 p.limit_global))

unfoldable pub queues : ResolvedPolicy → Bool
unfolding layered_at_submit
queues p =
    if leb 2 p.batch
    then true
    else if layered_at_submit p
    then false
    else ltb 0 p.limit_model_token || ltb 0 p.limit_global

-- An entry of the table: a field that is not declared is `none`.
pub record Entry : Type 0 where
  pub batch : Option ℕ
  pub batch_wait : Option ℕ
  pub limit_per_token : Option ℕ
  pub limit_model_token : Option ℕ
  pub limit_global : Option ℕ
  pub reject_when_full : Option ℕ

-- A dict of entries, in the order of insertion
abbrev pub Table : Type 0
Table = List (Text × Entry)

-- `invalid` is a ValueError.
pub data Checked {ℓ} (A : Type ℓ) : Type ℓ where
  valid : A → Checked A
  invalid : Checked A

infixl 10 ◌>>=◌ ◌>>◌
abbrev pub ◌>>=◌ {ℓ κ} : {A : Type ℓ} {B : Type κ} → Checked A → (A → Checked B) → Checked B
valid a >>= f = f a
invalid >>= f = invalid

abbrev pub ◌>>◌ {ℓ} : {B : Type ℓ} → Checked (Unit {0}) → Checked B → Checked B
m >> k = m >>= λ _. k

-- if b: raise ValueError
abbrev pub fail_if : Bool → Checked (Unit {0})
fail_if true = invalid
fail_if false = valid tt

abbrev pub or_zero : Option ℕ → ℕ
or_zero none = 0
or_zero (some n) = n

abbrev pub no_entry : Entry
no_entry = record {
  batch = none;
  batch_wait = none;
  limit_per_token = none;
  limit_model_token = none;
  limit_global = none;
  reject_when_full = none;
}
