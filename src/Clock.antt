-- ===== src/Clock.antt =====
-- The clock of common/src/date_time_utils.cpp.
use brix.Base.{ℕ, ◌+◌, ◌-◌, ◌%◌, ◌^◌, ◌≤◌, ◌<◌, ◌≡◌, arith, ℤ, pos, negsuc, u32, int_of_bits, ◌-ℤ◌}

-- The milliseconds since the epoch, which the return type `int` cuts to 32 bits.
unfoldable pub get_current_time_ms : ℕ → ℤ
unfolding int_of_bits
get_current_time_ms ms = int_of_bits (u32 ms)

-- Less than 2^31 ms are measured as they are, unless the clock goes past a largest `int` between.
pub elapsed_whole :
    (t d : ℕ)
    → d < 2 ^ 31
    → (t % 2 ^ 32 < 2 ^ 31 → t % 2 ^ 32 + d < 2 ^ 31)
    → get_current_time_ms (t + d) -ℤ get_current_time_ms t ≡ pos d
unfolding get_current_time_ms ◌-ℤ◌
elapsed_whole t d h k = ground arith

-- Past it, the time that has passed is 2^32 ms too low.
pub elapsed_wrapped :
    (t d : ℕ)
    → t % 2 ^ 32 < 2 ^ 31
    → 2 ^ 31 ≤ t % 2 ^ 32 + d
    → d < 2 ^ 32
    → get_current_time_ms (t + d) -ℤ get_current_time_ms t ≡ negsuc (2 ^ 32 - 1 - d)
unfolding get_current_time_ms ◌-ℤ◌
elapsed_wrapped t d h k l = ground arith
