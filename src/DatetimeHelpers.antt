-- ===== src/DatetimeHelpers.antt =====
-- rsocket/datetime_helpers.py. A `timedelta` is a number of microseconds, not negative.
use rsocket_py.Prelude.{ℕ, ◌+◌, ◌*◌, ◌/◌, ◌%◌, ◌≡◌, arith, ltb, lt→ltb, ◌==◌, if◌then◌else◌}

-- Python's `round` of a number of thousandths: to the nearest integer, a half to the even one.
unfoldable pub round_thousandths : ℕ → ℕ
round_thousandths n =
    if ltb (n % 1000) 500
    then n / 1000
    else if n % 1000 == 500
    then n / 1000 + n / 1000 % 2
    else n / 1000 + 1

-- `total_seconds()` counts all microseconds, `microseconds` those of the last second.
unfoldable pub to_milliseconds : ℕ → ℕ
to_milliseconds period = round_thousandths period + round_thousandths (period % 1000000)

round_thousandths_whole : (m : ℕ) → round_thousandths (1000 * m) ≡ m
unfolding round_thousandths
round_thousandths_whole m = rw (lt→ltb (1000 * m % 1000) 500 (omega arith)) (omega arith)

-- A period of whole milliseconds is converted with the milliseconds of its last second counted
-- twice, so the result is the period only for whole seconds.
pub to_milliseconds_whole : (m : ℕ) → to_milliseconds (1000 * m) ≡ m + m % 1000
unfolding to_milliseconds
to_milliseconds_whole m =
    let last : 1000 * m % 1000000 ≡ 1000 * (m % 1000) = omega arith in
    rw (last, round_thousandths_whole m, round_thousandths_whole (m % 1000))
