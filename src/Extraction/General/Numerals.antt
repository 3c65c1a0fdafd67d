-- ===== src/Extraction/General/Numerals.antt =====
-- `Decimal(raw.replace(",", ""))` on the numerals of the patterns: digits, then at most one point
-- with two digits behind it. The value is a number of hundredths.
use email_budget_api.Common.{ℕ, ◌+◌, ◌-◌, ◌*◌, Option, none, some, [], ◌∷◌, ◌==◌, if◌then◌else◌}
use email_budget_api.Common.Text.{Text}
use email_budget_api.Regex.{is_digit}
use email_budget_api.Strings.{remove}

-- The two digits behind the point, and nothing else.
unfoldable pub hundredths : ℕ → Text → Option ℕ
hundredths n (c ∷ d ∷ []) =
    if is_digit c
    then (if is_digit d then some (n * 100 + (c - b'0') * 10 + (d - b'0')) else none)
    else none
hundredths n _ = none

-- The value so far of the digits before the point.
unfoldable pub units : ℕ → Text → Option ℕ
unfolding hundredths
units n [] = some (n * 100)
units n (c ∷ t) =
    let rest = units (n * 10 + (c - b'0')) t in
    if is_digit c then rest else if c == b'.' then hundredths n t else none

-- An empty numeral is an `InvalidOperation`.
unfoldable pub decimal_of : Text → Option ℕ
unfolding units
decimal_of [] = none
decimal_of (c ∷ t) = units 0 (c ∷ t)

unfoldable pub amount_of : Text → Option ℕ
unfolding decimal_of
amount_of raw = decimal_of (remove b',' raw)
