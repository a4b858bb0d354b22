-- ===== src/Schedule.antt =====
-- app/services/schedule.py: the two headers that delay a task. `fromisoformat` stands for
-- `datetime.fromisoformat` with its time zone and `timestamp()`, whole seconds since the epoch.
pub mod Bounds
use stask_service.Prelude.{
  ℕ, ◌+◌, ◌-◌, ◌*◌, Text, codes, strip, Bool, true, false, ltb, leb, ◌==◌, if◌then◌else◌, min,
  Option, none, some, List, [], ◌∷◌, ◌++◌,
}
use stask_service.Prelude.Int.{ℤ, pos, negsuc}
use stask_service.Prelude.Decimal.{int_of_text, isdigit, lstrip_dash}

pub data Header : Type 0 where
  delay_seconds execute_after : Header

pub data Code : Type 0 where
  invalid_delay invalid_execute_after conflicting_schedule_headers delay_too_long : Code

-- `rejected` is a ScheduleError, which the router turns into 400; `value_error` is a ValueError
-- that nothing below the router catches.
pub data Parsed (A : Type 0) : Type 0 where
  parsed : A → Parsed A
  rejected : Code → Header → Parsed A
  value_error : Parsed A

abbrev margin_seconds : ℕ
margin_seconds = 600

abbrev pub hard_cap_seconds : ℕ
hard_cap_seconds = 12 * 3600

-- max(0, ttl - worker_timeout - margin)
unfoldable pub capacity_seconds : ℕ → ℕ → ℕ
capacity_seconds sk_session_ttl worker_timeout = sk_session_ttl - worker_timeout - margin_seconds

-- max(0, min(configured, HARD_CAP_SECONDS, capacity)); a configured value is an integer
unfoldable pub resolve_max_delay : ℤ → ℕ → ℕ
resolve_max_delay (pos configured) capacity = min configured (min hard_cap_seconds capacity)
resolve_max_delay (negsuc configured) capacity = 0

not_negative : Option ℤ → Parsed ℕ
not_negative none = rejected invalid_delay delay_seconds
not_negative (some (pos n)) = parsed n
not_negative (some (negsuc n)) = rejected invalid_delay delay_seconds

is_empty : Text → Bool
is_empty [] = true
is_empty (c ∷ s) = false

unfoldable pub parse_int : Text → Parsed ℕ
unfolding not_negative is_empty
parse_int raw =
    let text = strip raw in
    if is_empty text then rejected invalid_delay delay_seconds else not_negative (int_of_text text)

-- a moment that has passed is 0
abbrev future : ℤ → ℕ → ℕ
future (pos stamp) now = if ltb now stamp then stamp else 0
future (negsuc stamp) now = 0

ends_with_z : Text → Bool
ends_with_z [] = false
ends_with_z (c ∷ []) = if c == b'Z' then true else c == b'z'
ends_with_z (c ∷ d ∷ s) = ends_with_z (d ∷ s)

drop_last : Text → Text
drop_last [] = []
drop_last (c ∷ []) = []
drop_last (c ∷ d ∷ s) = c ∷ drop_last (d ∷ s)

utc_offset : Text → Text
unfolding ends_with_z drop_last
utc_offset text = if ends_with_z text then drop_last text ++ codes "+00:00" else text

module _ (fromisoformat : Text → Option ℤ) where
  of_stamp : Option ℤ → ℕ → Parsed ℕ
  of_stamp none now = value_error
  of_stamp (some z) now = parsed (future z now)

  of_moment : Option ℤ → ℕ → Parsed ℕ
  of_moment none now = rejected invalid_execute_after execute_after
  of_moment (some z) now = parsed (future z now)

  unfoldable pub parse_after : Text → ℕ → Parsed ℕ
  unfolding of_stamp of_moment utc_offset is_empty
  parse_after raw now =
      let text = strip raw in
      if is_empty text
      then rejected invalid_execute_after execute_after
      else if isdigit (lstrip_dash text)
      then of_stamp (int_of_text text) now
      else of_moment (fromisoformat (utc_offset text)) now

  after_delay : Parsed ℕ → ℕ → ℕ → Parsed ℕ
  after_delay (parsed seconds) now max_delay =
      if seconds == 0
      then parsed 0
      else if ltb max_delay seconds
      then rejected delay_too_long delay_seconds
      else parsed (now + seconds)
  after_delay (rejected c h) now max_delay = rejected c h
  after_delay value_error now max_delay = value_error

  after_moment : Parsed ℕ → ℕ → ℕ → Parsed ℕ
  after_moment (parsed at) now max_delay =
      if at == 0
      then parsed 0
      else if ltb max_delay (at - now)
      then rejected delay_too_long execute_after
      else parsed at
  after_moment (rejected c h) now max_delay = rejected c h
  after_moment value_error now max_delay = value_error

  -- the arguments are `headers.get` of the two headers
  unfoldable pub parse : Option Text → Option Text → ℕ → ℕ → Parsed ℕ
  unfolding after_delay after_moment
  parse (some d) (some a) now max_delay = rejected conflicting_schedule_headers delay_seconds
  parse (some d) none now max_delay = after_delay (parse_int d) now max_delay
  parse none (some a) now max_delay = after_moment (parse_after a now) now max_delay
  parse none none now max_delay = parsed 0
