-- ===== src/Router/Uri/Dates.antt =====
-- crates/buran-router/src/uri.rs: dates. The days are counted from 1970 on, as every caller does;
-- the years before year 0, where the code rounds an era down, are left out.
use buran.Prelude.{
  ℕ, ◌+◌, ◌-◌, ◌*◌, ◌/◌, ◌%◌, ◌≡◌, ap, ◌∙◌, ◌≤◌, ◌<◌, ◌⊎◌, inl, inr, Bool, true, not, ◌&&◌, ◌||◌,
  ◌==◌, ltb, leb, List, [], ◌∷◌, ◌++◌, Bytes, codes, get_elem?, if◌then◌else◌, arith,
}
use buran.Router.Routes.{or_empty}
use buran.Router.Http.Response.{to_decimal}

pub record Civil : Type 0 where
  pub year : ℕ
  pub month : ℕ
  pub day : ℕ

-- From the day of an era of 400 years, which has 146097 days.
abbrev pub year_of_era : ℕ → ℕ
year_of_era doe = (doe - doe / 1460 + doe / 36524 - doe / 146096) / 365

abbrev pub from_year_day : ℕ → ℕ → Civil
from_year_day y doy =
    let mp = (5 * doy + 2) / 153 in
    let m = if ltb mp 10 then mp + 3 else mp - 9 in
    record { year = if leb m 2 then y + 1 else y; month = m; day = doy - (153 * mp + 2) / 5 + 1 }

abbrev pub from_era : ℕ → ℕ → ℕ → Civil
from_era era doe yoe = from_year_day (yoe + era * 400) (doe - (365 * yoe + yoe / 4 - yoe / 100))

unfoldable pub civil_from_days : ℕ → Civil
civil_from_days days =
    let z = days + 719468 in
    let era = z / 146097 in let doe = z - era * 146097 in from_era era doe (year_of_era doe)

abbrev pub day_names : List Bytes
day_names =
    codes "Thu"
    ∷ codes "Fri"
    ∷ codes "Sat"
    ∷ codes "Sun"
    ∷ codes "Mon"
    ∷ codes "Tue"
    ∷ codes "Wed"
    ∷ []

abbrev pub month_names : List Bytes
month_names =
    codes "Jan"
    ∷ codes "Feb"
    ∷ codes "Mar"
    ∷ codes "Apr"
    ∷ codes "May"
    ∷ codes "Jun"
    ∷ codes "Jul"
    ∷ codes "Aug"
    ∷ codes "Sep"
    ∷ codes "Oct"
    ∷ codes "Nov"
    ∷ codes "Dec"
    ∷ []

-- `{:02}`.
abbrev pub two_digits : ℕ → Bytes
two_digits n = if ltb n 10 then b'0' ∷ to_decimal n else to_decimal n

unfoldable pub http_date : ℕ → Bytes
unfolding civil_from_days to_decimal
http_date unix_secs =
    let days = unix_secs / 86400 in
    let rem = unix_secs % 86400 in
    let c = civil_from_days days in
    or_empty (get_elem? day_names (days % 7))
    ++ (codes ", "
        ++ (two_digits c.day
            ++ (codes " "
                ++ (or_empty (get_elem? month_names (c.month - 1))
                    ++ (codes " "
                        ++ (to_decimal c.year
                            ++ (codes " "
                                ++ (two_digits (rem / 3600)
                                    ++ (codes ":"
                                        ++ (two_digits (rem % 3600 / 60)
                                            ++ (codes ":"
                                                ++ (two_digits (rem % 60)
                                                    ++ codes " GMT"))))))))))))

-- The days from 1970 to a date: 365 for each year, one for each leap year, and those of the months,
-- whose year begins in March.
abbrev pub days_before_year : ℕ → ℕ
days_before_year y = 365 * y + y / 4 - y / 100 + y / 400

abbrev pub march_year : Civil → ℕ
march_year c = if leb c.month 2 then c.year - 1 else c.year

abbrev pub march_month : Civil → ℕ
march_month c = if leb c.month 2 then c.month + 9 else c.month - 3

abbrev pub days_from_civil : Civil → ℕ
days_from_civil c =
    days_before_year (march_year c) + (153 * march_month c + 2) / 5 + (c.day - 1) - 719468

-- The Gregorian leap years: each fourth, but of the centuries only each fourth.
abbrev pub is_leap : ℕ → Bool
is_leap y = y % 4 == 0 && (not (y % 100 == 0) || y % 400 == 0)

abbrev pub days_in_month : ℕ → ℕ → ℕ
days_in_month y m =
    if m == 2
    then (if is_leap y then 29 else 28)
    else if m == 4 || (m == 6 || (m == 9 || m == 11))
    then 30
    else 31

-- A day of the Gregorian calendar.
abbrev pub InCalendar : Civil → Type 0
InCalendar c =
    (1 ≤ c.month) × ((c.month ≤ 12) × ((1 ≤ c.day) × (c.day ≤ days_in_month c.year c.month)))

-- Only a year that ends in a leap day has the day 365.
abbrev LeapFits : ℕ → ℕ → Type 0
LeapFits y doy = (doy ≤ 364) ⊎ (is_leap (y + 1) ≡ true)

from_year_day-InCalendar :
    (y doy : ℕ) → doy ≤ 365 → LeapFits y doy → InCalendar (from_year_day y doy)
from_year_day-InCalendar y doy small leap = ground (arith, leap)

from_year_day-days :
    (y doy : ℕ)
    → doy ≤ 365
    → days_from_civil (from_year_day y doy) ≡ days_before_year y + doy - 719468
from_year_day-days y doy small = ground arith

abbrev YearFits : ℕ → ℕ → Type 0
YearFits doe yoe =
    (yoe ≤ 399)
    × ((365 * yoe + yoe / 4 - yoe / 100 ≤ doe) × (doe - (365 * yoe + yoe / 4 - yoe / 100) ≤ 365))

year_of_era-YearFits : (doe : ℕ) → doe ≤ 146096 → YearFits doe (year_of_era doe)
year_of_era-YearFits doe small = omega arith

-- The last day of a year of 366 is the 29th of February of a leap year.
year_of_era-leaps :
    (doe : ℕ)
    → doe ≤ 146096
    → let yoe : ℕ = year_of_era doe in
      (doe - (365 * yoe + yoe / 4 - yoe / 100) ≤ 364)
      ⊎ ((yoe % 4 ≡ 3) × ((yoe % 100 < 99) ⊎ (yoe ≡ 399)))
year_of_era-leaps doe small = ground arith

year_of_era-LeapFits :
    (era yoe doy : ℕ)
    → (doy ≤ 364) ⊎ ((yoe % 4 ≡ 3) × ((yoe % 100 < 99) ⊎ (yoe ≡ 399)))
    → LeapFits (yoe + era * 400) doy
year_of_era-LeapFits era yoe doy (inl small) = inl small
year_of_era-LeapFits era yoe doy (inr (four, inl plain)) = inr ground (arith, four, plain)
year_of_era-LeapFits era yoe doy (inr (four, inr last)) = inr ground (arith, four, last)

era_days :
    (era yoe : ℕ)
    → yoe ≤ 399
    → days_before_year (yoe + era * 400) ≡ era * 146097 + (365 * yoe + yoe / 4 - yoe / 100)
era_days era yoe small = omega arith

-- The date of a day number from 1970 on is a day of the Gregorian calendar, within the length that
-- its month has in its year, and the days from 1970 up to it, counted by years, leap years and
-- months, are that number.
pub civil_from_days-days :
    (days : ℕ) → InCalendar (civil_from_days days) × (days_from_civil (civil_from_days days) ≡ days)
unfolding civil_from_days
civil_from_days-days days =
    let z = days + 719468 in
    let era = z / 146097 in
    let doe = z - era * 146097 in
    let yoe = year_of_era doe in
    let doy = doe - (365 * yoe + yoe / 4 - yoe / 100) in
    let fits : YearFits doe yoe = year_of_era-YearFits doe (omega arith) in
    (
      from_year_day-InCalendar (yoe + era * 400) doy fits.1.1
          (year_of_era-LeapFits era yoe doy (year_of_era-leaps doe (omega arith))),
      from_year_day-days (yoe + era * 400) doy fits.1.1
          ∙ ap (λ n. n + doy - 719468) (era_days era yoe fits.0)
          ∙ omega (arith, fits),
    )
