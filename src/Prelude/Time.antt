-- ===== src/Prelude/Time.antt =====
-- Go's instants and durations: nanoseconds as integers. `Time.UTC` changes the zone in which an
-- instant is printed, not the instant, so it is not written.
use Prim.Native.Nat.{ℕ, suc, ◌/◌}
use dota2_ob.Prelude.Tests.{if◌then◌else◌}
use dota2_ob.Prelude.Int.{ℤ, pos, negsuc, ◌-ℤ◌, ltb_ℤ}

abbrev pub Time : Type 0
Time = ℤ

abbrev pub Duration : Type 0
Duration = ℤ

abbrev pub max_duration : Duration
max_duration = pos 9223372036854775807

abbrev pub min_duration : Duration
min_duration = negsuc 9223372036854775807

-- a.Sub(b), which saturates at the bounds of a Duration
unfoldable pub time_sub : Time → Time → Duration
unfolding ◌-ℤ◌
time_sub a b =
    let d = a -ℤ b in
    if ltb_ℤ max_duration d then max_duration else if ltb_ℤ d min_duration then min_duration else d

abbrev pub second : ℕ
second = 1000000000

-- d / time.Second, which truncates toward zero
unfoldable pub whole_seconds : Duration → ℤ
unfolding ◌-ℤ◌
whole_seconds (pos n) = pos (n / second)
whole_seconds (negsuc n) = pos 0 -ℤ pos (suc n / second)

-- uint64 counters wrap.
abbrev pub u64_mod : ℕ
u64_mod = 18446744073709551616
