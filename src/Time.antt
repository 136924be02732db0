-- ===== src/Time.antt =====
-- crates/ziggurat-zigbee/src/time.rs: `Instant` as its count of microseconds, a `u64`, and a
-- `Duration` as the microseconds of its `as_micros`.
use ziggurat.Base.{
  ◌*◌, ℕ, ◌≤◌, ◌+◌, ◌≡◌, arith, u64_max, leb, saturating_add, saturating_sub, if◌then◌else◌,
}

-- `Instant + Duration`.
unfoldable pub later : ℕ → ℕ → ℕ
later now wait = saturating_add u64_max now (if leb wait u64_max then wait else u64_max)

unfoldable pub saturating_duration_since : ℕ → ℕ → ℕ
saturating_duration_since now earlier = saturating_sub now earlier

-- The microseconds of `Duration::MAX`.
abbrev pub duration_max : ℕ
duration_max = 18446744073709551615 * 1000000 + 999999

-- `Duration::saturating_mul`.
unfoldable pub saturating_mul : ℕ → ℕ → ℕ
saturating_mul d n = if leb (d * n) duration_max then d * n else duration_max

-- Adding a duration never goes back in time, and never overflows.
pub later_bounds :
    (now wait : ℕ) → now ≤ u64_max → (now ≤ later now wait) × (later now wait ≤ u64_max)
unfolding later
later_bounds now wait h = ground arith

pub later_mono : (a b wait : ℕ) → a ≤ b → b ≤ u64_max → later a wait ≤ later b wait
unfolding later
later_mono a b wait h k = ground arith

-- Away from the clamp, the elapsed time is the duration that was added.
pub since-later :
    (now wait : ℕ) → now + wait ≤ u64_max → saturating_duration_since (later now wait) now ≡ wait
unfolding saturating_duration_since later
since-later now wait h = ground arith
