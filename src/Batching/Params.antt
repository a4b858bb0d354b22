-- ===== src/Batching/Params.antt =====
-- The headers by which a client asks for a batch, and the key that says who shares one.
pub mod Keys
use stask_service.Prelude.{
  ℕ, suc, ◌≤◌, Text, text_eq, codes, strip, Bool, true, false, ◌&&◌, ◌||◌, ltb, leb, ◌==◌,
  if◌then◌else◌, take, map, Option, none, some, List, [], ◌∷◌, ◌++◌,
}
use stask_service.Prelude.Int.{ℤ, pos, negsuc}
use stask_service.Prelude.Decimal.{int_of_text}
use stask_service.Rows.{BatchState, absent, waiting, scheduled, immediate, releasing, released}
use stask_service.Policy.{normalize_model, max_batch}

pub data Header : Type 0 where
  size_header wait_header : Header

pub data Code : Type 0 where
  invalid_batch_size batch_wait_too_long : Code

-- `rejected` is a BatchParamError.
pub data Parsed (A : Type 0) : Type 0 where
  parsed : A → Parsed A
  rejected : Code → Header → Parsed A

pub record Overrides : Type 0 where
  pub size : Option ℕ
  pub wait : Option ℕ
  pub key : Option Text

positive : Header → Option ℤ → Parsed ℕ
positive h none = rejected invalid_batch_size h
positive h (some (pos n)) = if ltb n 1 then rejected invalid_batch_size h else parsed n
positive h (some (negsuc n)) = rejected invalid_batch_size h

-- both headers raise with the code of a batch size
unfoldable pub parse_positive_int : Header → Text → Parsed ℕ
unfolding positive
parse_positive_int h raw = positive h (int_of_text (strip raw))

at_most : ℕ → Code → Header → Parsed ℕ → Parsed (Option ℕ)
at_most top c h (parsed n) = if ltb top n then rejected c h else parsed (some n)
at_most top c h (rejected d g) = rejected d g

limited : ℕ → Code → Header → Option Text → Parsed (Option ℕ)
unfolding at_most
limited top c h none = parsed none
limited top c h (some raw) = at_most top c h (parse_positive_int h raw)

abbrev pub max_key_len : ℕ
max_key_len = 64

-- [A-Za-z0-9._:-]
abbrev pub is_safe : ℕ → Bool
is_safe c =
    leb b'A' c && leb c b'Z'
    || leb b'a' c && leb c b'z'
    || leb b'0' c && leb c b'9'
    || c == b'.'
    || c == b'_'
    || c == b':'
    || c == b'-'

abbrev pub make_safe : ℕ → ℕ
make_safe c = if is_safe c then c else b'_'

unfoldable pub sanitize_key : Text → Text
sanitize_key raw = map make_safe (take max_key_len (strip raw))

abbrev not_blank : Text → Option Text
not_blank [] = none
not_blank (c ∷ s) = some (c ∷ s)

key_of : Option Text → Option Text
key_of none = none
key_of (some raw) = not_blank (sanitize_key raw)

with_wait : Option ℕ → Option Text → Parsed (Option ℕ) → Parsed Overrides
with_wait size key (parsed wait) = parsed (record { size = size; wait = wait; key = key })
with_wait size key (rejected c h) = rejected c h

with_size : Parsed (Option ℕ) → Parsed (Option ℕ) → Option Text → Parsed Overrides
unfolding with_wait
with_size (parsed size) wait key = with_wait size key wait
with_size (rejected c h) wait key = rejected c h

-- the arguments are `headers.get` of the three headers
unfoldable pub parse_overrides : Option Text → Option Text → Option Text → ℕ → Parsed Overrides
unfolding limited with_size key_of
parse_overrides size wait key max_wait =
    with_size (limited max_batch invalid_batch_size size_header size)
      (limited max_wait batch_wait_too_long wait_header wait) (key_of key)

unfoldable pub group_key : Text → Text → Text → Bool → Text
group_key [] model token_hash by_token_model =
    if by_token_model
    then sanitize_key (take 12 token_hash ++ b':' ∷ normalize_model model)
    else sanitize_key (normalize_model model)
group_key (c ∷ s) model token_hash by_token_model = c ∷ s

unfoldable pub public_batch_state : BatchState → Text
public_batch_state waiting = codes "waiting"
public_batch_state releasing = codes "released"
public_batch_state released = codes "released"
public_batch_state _ = []
