-- ===== src/Text/Date.antt =====
-- time.Time in UTC: the calendar date of a number of nanoseconds since the first of January of the year
-- 1, and its text in the layout time.RFC3339.
use Prim.Native.Nat.{◌/◌, ◌%◌, min}
use copyfail_validation.Base.{
  ℕ, List, [], ◌∷◌, ◌++◌, ◌+◌, ◌-◌, ◌*◌, ◌^◌, Bool, ◌&&◌, ◌||◌, not, ◌==◌, ltb, if◌then◌else◌,
}
use copyfail_validation.Text.{Text, codes}
use copyfail_validation.Text.Decimal.{format_ℕ}

pub record Date : Type 0 where
  pub year : ℕ
  pub month : ℕ
  pub day : ℕ

unfoldable pub is_leap : ℕ → Bool
is_leap year = year % 4 == 0 && (not (year % 100 == 0) || year % 400 == 0)

unfoldable pub month_lengths : ℕ → List ℕ
unfolding is_leap
month_lengths year =
    31 ∷ (if is_leap year then 29 else 28) ∷ 31 ∷ 30 ∷ 31 ∷ 30 ∷ 31 ∷ 31 ∷ 30 ∷ 31 ∷ 30 ∷ 31 ∷ []

-- The month and the day, for a day of the year and the months from `month` on.
unfoldable pub in_month : ℕ → ℕ → ℕ → List ℕ → Date
in_month year month yday [] = record { year = year; month = month; day = yday + 1 }
in_month year month yday (n ∷ ns) =
    let later = in_month year (month + 1) (yday - n) ns in
    if ltb yday n then record { year = year; month = month; day = yday + 1 } else later

-- The date of a number of days since the first of January of the year 1.
unfoldable pub date_of : ℕ → Date
unfolding in_month month_lengths
date_of days =
    let in_400 = days % 146097 in
    let centuries = min 3 (in_400 / 36524) in
    let in_100 = in_400 - centuries * 36524 in
    let in_4 = in_100 % 1461 in
    let years = min 3 (in_4 / 365) in
    let year = days / 146097 * 400 + centuries * 100 + in_100 / 1461 * 4 + years + 1 in
    in_month year 1 (in_4 - years * 365) (month_lengths year)

-- At least two digits.
unfoldable pub two_digits : ℕ → Text
unfolding format_ℕ
two_digits n = if ltb n 10 then b'0' ∷ format_ℕ n else format_ℕ n

-- At least four digits.
unfoldable pub four_digits : ℕ → Text
unfolding two_digits
four_digits n =
    if ltb n 100
    then b'0' ∷ b'0' ∷ two_digits n
    else if ltb n 1000
    then b'0' ∷ format_ℕ n
    else format_ℕ n

unfoldable pub rfc3339 : ℕ → Text
unfolding date_of two_digits four_digits
rfc3339 t =
    let seconds = t / 10 ^ 9 in
    let d = date_of (seconds / 86400) in
    four_digits d.year
    ++ (b'-'
        ∷ (two_digits d.month
            ++ (b'-'
                ∷ (two_digits d.day
                    ++ (b'T'
                        ∷ (two_digits (seconds / 3600 % 24)
                            ++ (b':'
                                ∷ (two_digits (seconds / 60 % 60)
                                    ++ (b':' ∷ (two_digits (seconds % 60) ++ codes "Z"))))))))))
