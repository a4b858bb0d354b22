-- ===== src/Schedule/Bounds.antt =====
-- Where a scheduled moment lies, and how long a task may wait for it.
use stask_service.Prelude.{
  ℕ, ◌+◌, ◌≤◌, ◌<◌, Text, strip, true, false, Option, none, some, [], ◌∷◌, ◌≡◌, refl, ◌⊎◌, inl,
  arith,
}
use stask_service.Prelude.Int.{ℤ, pos, negsuc}
use stask_service.Prelude.Decimal.{int_of_text, isdigit, lstrip_dash}
use stask_service.Prelude.{is_space, no_space, strip-fixed}
use stask_service.Prelude.Decimal.{is_digit, all_digits}
use stask_service.Schedule.{
  utc_offset, Parsed, parsed, rejected, value_error, parse, parse_after, after_moment, of_stamp,
  of_moment, future, capacity_seconds, resolve_max_delay,
}

is_digit-no_space : (c : ℕ) → is_digit c ≡ true → is_space c ≡ false
is_digit-no_space c h = ground arith

all_digits-no_space : (s : Text) → all_digits s ≡ true → no_space s ≡ true
unfolding all_digits
all_digits-no_space [] h = refl
all_digits-no_space (c ∷ s) h = ground (arith, all_digits-no_space s)

all_digits-lstrip_dash : (c : ℕ) (s : Text) → is_digit c ≡ true → lstrip_dash (c ∷ s) ≡ c ∷ s
unfolding lstrip_dash
all_digits-lstrip_dash c s h = ground arith

dashes_fixed :
    (c : ℕ) (s : Text) → isdigit (c ∷ s) ≡ true → strip (b'-' ∷ b'-' ∷ c ∷ s) ≡ b'-' ∷ b'-' ∷ c ∷ s
unfolding isdigit
dashes_fixed c s h = strip-fixed (b'-' ∷ b'-' ∷ c ∷ s) (ground (arith, all_digits-no_space s))

dashes_no_int :
    (c : ℕ) (s : Text) → isdigit (c ∷ s) ≡ true → int_of_text (b'-' ∷ b'-' ∷ c ∷ s) ≡ none
unfolding int_of_text
dashes_no_int c s h = rw (dashes_fixed c s h) (refl)

dashes_digits :
    (c : ℕ) (s : Text) → isdigit (c ∷ s) ≡ true → isdigit (lstrip_dash (b'-' ∷ b'-' ∷ c ∷ s)) ≡ true
unfolding isdigit lstrip_dash
dashes_digits c s h = ground arith

pub of_future : (z : ℤ) (now : ℕ) → (future z now ≡ 0) ⊎ (now < future z now)
of_future (pos n) now = ground arith
of_future (negsuc n) now = inl refl

module _ (fromisoformat : Text → Option ℤ) where
  stamp-future :
      (o : Option ℤ) (now t : ℕ) → of_stamp fromisoformat o now ≡ parsed t → (t ≡ 0) ⊎ (now < t)
  unfolding of_stamp
  stamp-future none now t h = cc
  stamp-future (some z) now t h = ground (arith, of_future z now)

  moment-future :
      (o : Option ℤ) (now t : ℕ) → of_moment fromisoformat o now ≡ parsed t → (t ≡ 0) ⊎ (now < t)
  unfolding of_moment
  moment-future none now t h = cc
  moment-future (some z) now t h = ground (arith, of_future z now)

  parse_after-future :
      (raw : Text) (now t : ℕ) → parse_after fromisoformat raw now ≡ parsed t → (t ≡ 0) ⊎ (now < t)
  unfolding parse_after
  parse_after-future raw now t h = ground (
    arith,
    stamp-future (int_of_text (strip raw)) now t,
    moment-future (fromisoformat (utc_offset (strip raw))) now t,
  )

  after_moment-bounds :
      (p : Parsed ℕ) (now max_delay t : ℕ)
      → ((u : ℕ) → p ≡ parsed u → (u ≡ 0) ⊎ (now < u))
      → after_moment fromisoformat p now max_delay ≡ parsed t
      → (t ≡ 0) ⊎ ((now < t) × (t ≤ now + max_delay))
  unfolding after_moment
  after_moment-bounds (parsed u) now max_delay t k h = ground (arith, k u refl)
  after_moment-bounds (rejected c x) now max_delay t k h = cc
  after_moment-bounds value_error now max_delay t k h = cc

  -- A moment that is accepted is 0, which means at once, or lies in the future, at most `max_delay`
  -- seconds away.
  pub parse_bounds :
      (d a : Option Text) (now max_delay t : ℕ)
      → parse fromisoformat d a now max_delay ≡ parsed t
      → (t ≡ 0) ⊎ ((now < t) × (t ≤ now + max_delay))
  unfolding parse
  parse_bounds (some d) (some a) now max_delay t h = cc
  parse_bounds (some d) none now max_delay t h = ground arith
  parse_bounds none (some a) now max_delay t h =
      after_moment-bounds (parse_after fromisoformat a now) now max_delay t
        (parse_after-future a now) h
  parse_bounds none none now max_delay t h = ground arith

  parse_after-raises :
      (c : ℕ) (s : Text) (now : ℕ)
      → isdigit (c ∷ s) ≡ true
      → parse_after fromisoformat (b'-' ∷ b'-' ∷ c ∷ s) now ≡ value_error
  unfolding parse_after
  parse_after-raises c s now h =
      rw (dashes_fixed c s h, dashes_digits c s h, dashes_no_int c s h) refl

  -- `X-Execute-After` with two dashes before its digits passes the test for a number, and then
  -- `int` raises: no ScheduleError, so no 400.
  pub parse_raises :
      (c : ℕ) (s : Text) (now max_delay : ℕ)
      → isdigit (c ∷ s) ≡ true
      → parse fromisoformat none (some (b'-' ∷ b'-' ∷ c ∷ s)) now max_delay ≡ value_error
  unfolding parse
  parse_raises c s now max_delay h = rw (parse_after-raises c s now h) refl

-- Where the life of a session covers the call and 600 seconds, the longest delay that is accepted
-- leaves the session of the token enough time for the call and 600 seconds more, and is at most
-- twelve hours.
pub resolve_max_delay_bounds :
    (configured : ℤ) (ttl timeout : ℕ)
    → timeout + 600 ≤ ttl
    → (resolve_max_delay configured (capacity_seconds ttl timeout) + timeout + 600 ≤ ttl)
      × (resolve_max_delay configured (capacity_seconds ttl timeout) ≤ 43200)
unfolding resolve_max_delay capacity_seconds
resolve_max_delay_bounds (pos n) ttl timeout h = (omega arith, omega arith)
resolve_max_delay_bounds (negsuc n) ttl timeout h = (omega arith, omega arith)
