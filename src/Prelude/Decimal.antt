-- ===== src/Prelude/Decimal.antt =====
-- Python's `int(text, 10)` and `str.isdigit` on ASCII texts.
use Prim.Native.Nat.{ℕ, ◌+◌, ◌-◌, ◌*◌}
use mathlib.Core.Bool.{Bool, true, false, ◌&&◌}
use mathlib.Core.Option.{Option, none, some}
use mathlib.Core.List.{[], ◌∷◌}
use stask_service.Prelude.Tests.{◌==◌, leb, if◌then◌else◌}
use stask_service.Prelude.Codes.{Text, strip}
use stask_service.Prelude.Int.{ℤ, pos, negsuc}

abbrev pub is_digit : ℕ → Bool
is_digit c = leb b'0' c && leb c b'9'

-- Digits, with single underscores between them. `after_digit` says what stands before.
unfoldable pub digits_value : ℕ → Bool → Text → Option ℕ
digits_value acc after_digit [] = if after_digit then some acc else none
digits_value acc after_digit (c ∷ s) =
    let next = digits_value (acc * 10 + (c - b'0')) true s in
    let skip = digits_value acc false s in
    if is_digit c then next else if c == b'_' && after_digit then skip else none

negated : Option ℕ → Option ℤ
negated none = none
negated (some n) = some (if n == 0 then pos 0 else negsuc (n - 1))

unsigned : Option ℕ → Option ℤ
unsigned none = none
unsigned (some n) = some (pos n)

signed : Text → Option ℤ
unfolding digits_value unsigned negated
signed [] = none
signed (c ∷ s) =
    if c == b'-'
    then negated (digits_value 0 false s)
    else if c == b'+'
    then unsigned (digits_value 0 false s)
    else unsigned (digits_value 0 false (c ∷ s))

-- `none` is a ValueError
unfoldable pub int_of_text : Text → Option ℤ
unfolding signed strip
int_of_text s = signed (strip s)

unfoldable pub all_digits : Text → Bool
all_digits [] = true
all_digits (c ∷ s) = is_digit c && all_digits s

-- text.isdigit()
unfoldable pub isdigit : Text → Bool
unfolding all_digits
isdigit [] = false
isdigit (c ∷ s) = is_digit c && all_digits s

-- text.lstrip("-")
unfoldable pub lstrip_dash : Text → Text
lstrip_dash [] = []
lstrip_dash (c ∷ s) = let rest = lstrip_dash s in if c == b'-' then rest else c ∷ s
