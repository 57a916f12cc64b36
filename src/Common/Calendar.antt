-- ===== src/Common/Calendar.antt =====
-- Instants of the standard library's `datetime` in UTC, as microseconds since 0001-01-01 00:00, a
-- Monday of the proleptic Gregorian calendar, and the truncations that the source makes.
use Prim.Native.Nat.{ℕ, ◌+◌, ◌-◌, ◌*◌, ◌/◌, ◌%◌}
use mathlib.Core.Path.{◌≡◌, refl}

abbrev pub second : ℕ
second = 1000000

abbrev pub minute : ℕ
minute = 60000000

abbrev pub hour : ℕ
hour = 3600000000

abbrev pub day : ℕ
day = 86400000000

-- `.day` of a date, 1 to 31, from its ordinal counted from 0: years begin in March, in eras of 400.
abbrev pub day_of_month : ℕ → ℕ
day_of_month ordinal =
    let e = (ordinal + 306) % 146097 in
    let y = (e - e / 1460 + e / 36524 - e / 146096) / 365 in
    let d = e - (365 * y + y / 4 - y / 100) in d - (153 * ((5 * d + 2) / 153) + 2) / 5 + 1

-- `now.replace(hour=0, minute=0, second=0, microsecond=0)`
unfoldable pub start_of_day : ℕ → ℕ
start_of_day now = now / day * day

-- `day - timedelta(days=day.weekday())`
unfoldable pub start_of_week : ℕ → ℕ
start_of_week now = (now / day - now / day % 7) * day

-- `day.replace(day=1)`
unfoldable pub start_of_month : ℕ → ℕ
start_of_month now = (now / day + 1 - day_of_month (now / day)) * day

-- Wednesday 2026-11-25 begins week 2026-11-23 and month 2026-11-01.
november : day_of_month 739944 ≡ 25
november = refl

november_week : start_of_week (739944 * day + 5) ≡ 739942 * day
unfolding start_of_week
november_week = refl

november_month : start_of_month (739944 * day + 5) ≡ 739920 * day
unfolding start_of_month
november_month = refl
