-- ===== src/Domain/Time.antt =====
-- `datetime` and `timedelta`, as far as the domain layer computes with them. An instant is a
-- number of microseconds since 0001-01-01 00:00 UTC, the least value of the type.
use weather.Common.{ℕ, ◌+◌, ◌-◌, ◌*◌, ◌/◌, ◌%◌, Bool, true, false, ltb, if◌then◌else◌}
use weather.Common.Result.{Result, ok, raises, Error}

abbrev pub second : ℕ
second = 1_000_000

abbrev pub minute : ℕ
minute = 60_000_000

abbrev pub hour : ℕ
hour = 3_600_000_000

abbrev pub day : ℕ
day = 86_400_000_000

-- The last instant of the year 9999.
abbrev pub max_instant : ℕ
max_instant = 315_537_897_599_999_999

-- A naive value holds its wall-clock time. Of an aware one only the instant matters, since the
-- code compares such values and converts them to UTC, and never reads their offset.
pub data DateTime : Type 0 where
  naive : ℕ → DateTime
  aware : ℕ → DateTime

-- `dt.tzinfo is None`
abbrev pub is_naive : DateTime → Bool
is_naive (naive t) = true
is_naive (aware t) = false

-- `_ensure_utc`: a naive value is taken for UTC, an aware one is converted.
abbrev pub ensure_utc : DateTime → ℕ
ensure_utc (naive t) = t
ensure_utc (aware t) = t

-- `dt + timedelta`, which raises past the last year.
abbrev pub add_time : ℕ → ℕ → Result ℕ
add_time t d = if ltb max_instant (t + d) then raises Error.overflow_error else ok (t + d)

-- `dt - timedelta`, which raises before the first year.
abbrev pub sub_time : ℕ → ℕ → Result ℕ
sub_time t d = if ltb t d then raises Error.overflow_error else ok (t - d)

-- The fields of a value in UTC.
abbrev pub hour_of : ℕ → ℕ
hour_of t = t / hour % 24

abbrev pub minute_of : ℕ → ℕ
minute_of t = t / minute % 60

abbrev pub second_of : ℕ → ℕ
second_of t = t / second % 60

abbrev pub microsecond_of : ℕ → ℕ
microsecond_of t = t % second

-- Midnight of the day of `t`.
abbrev pub midnight : ℕ → ℕ
midnight t = t / day * day
