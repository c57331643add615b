-- ===== src/Core/Time.antt =====
-- foundation/crates/coinext-core/src/time.rs: nanoseconds since the Unix epoch, a u64.
use coinext.Prelude.{ℕ, ◌+◌, ◌-◌, ◌^◌, ltb, if◌then◌else◌}

abbrev pub UnixNanos : Type 0
UnixNanos = ℕ

unfoldable pub saturating_add_ns : UnixNanos → ℕ → UnixNanos
saturating_add_ns t ns = if ltb (t + ns) (2 ^ 64) then t + ns else 2 ^ 64 - 1
