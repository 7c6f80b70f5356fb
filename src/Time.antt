-- ===== src/Time.antt =====
-- The parts of Go's `time` package that the tracer uses. A `time.Time` is the number of nanoseconds
-- since the zero time (the year 1), so `time.Time{}` is 0; times before it are left out. A
-- `time.Duration` is the integer that its `int64` stands for.
use lightstep_tracer_go.Base.{ℕ, ◌+◌, ◌-◌, ◌/◌, ◌%◌, Bool, ltb, ◌==◌, if◌then◌else◌, int_max}
use lightstep_tracer_go.Base.Int.{ℤ, pos, negsuc, pos_part, neg_part, sub_ℕ}

abbrev pub Time : Type 0
Time = ℕ

abbrev pub Duration : Type 0
Duration = ℤ

abbrev pub zero_time : Time
zero_time = 0

abbrev pub is_zero : Time → Bool
is_zero t = t == 0

-- `t.Before(u)` and `t.After(u)`
abbrev pub before : Time → Time → Bool
before t u = ltb t u

abbrev pub after : Time → Time → Bool
after t u = ltb u t

-- `t.Add(d)`
abbrev pub add : Time → Duration → Time
add t d = t + pos_part d - neg_part d

-- `t.Sub(u)` saturates at the ends of `int64`.
abbrev pub saturate : ℤ → Duration
saturate (pos n) = if ltb n int_max then pos n else pos (int_max - 1)
saturate (negsuc n) = if ltb n int_max then negsuc n else negsuc (int_max - 1)

abbrev pub sub : Time → Time → Duration
sub t u = saturate (sub_ℕ t u)

abbrev pub second : ℕ
second = 1_000_000_000

-- The zero time lies this many seconds before the Unix epoch.
abbrev pub unix_offset : ℕ
unix_offset = 62_135_596_800

abbrev pub unix : Time → ℤ
unix t = sub_ℕ (t / second) unix_offset

abbrev pub nanosecond : Time → ℕ
nanosecond t = t % second
