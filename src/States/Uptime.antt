-- ===== src/States/Uptime.antt =====
-- formatters.js: the parts of a duration.
use rocketmq.Shared.{ℕ, ◌+◌, ◌*◌, ◌/◌, ◌<◌, ◌≡◌, arith}
use rocketmq.States.{Duration, duration}

-- The parts of a duration are in the ranges of a clock and add up to its seconds.
pub record IsClock (d : Duration) (seconds : ℕ) : Type 0 where
  pub hour : d.hour < 24
  pub min : d.min < 60
  pub sec : d.sec < 60
  pub total : d.day * 86400 + d.hour * 3600 + d.min * 60 + d.sec ≡ seconds

-- The days, hours, minutes and seconds of an uptime are in the ranges of a clock and add up to the whole
-- seconds of the uptime.
pub duration-IsClock : (u : ℕ) → IsClock (duration u) (u / 1000)
unfolding duration
duration-IsClock u = record {
  hour = omega arith;
  min = omega arith;
  sec = omega arith;
  total = omega arith;
}
