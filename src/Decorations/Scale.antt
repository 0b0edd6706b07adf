-- ===== src/Decorations/Scale.antt =====
-- src/decorations/scale.rs: the scales that the bridge is told.
pub mod Rounding
mod Tests
use psbox.Common.{ℕ, ◌+◌, ◌*◌, ◌/◌, ◌-◌, ◌^◌, max, min}

-- `XwaylandScale` of src/spec.rs
pub data XwaylandScale : Type 0 where
  native round_up compositor : XwaylandScale

abbrev pub u32_max : ℕ
u32_max = 2 ^ 32 - 1

-- `u32::saturating_mul`
abbrev saturating_mul : ℕ → ℕ → ℕ
saturating_mul a b = min (a * b) u32_max

-- `n.div_ceil(120)`
abbrev div_ceil_120 : ℕ → ℕ
div_ceil_120 n = (n + 119) / 120

unfoldable pub preferred : XwaylandScale → ℕ → ℕ
preferred native n = n
preferred round_up n = saturating_mul (max (div_ceil_120 n) 1) 120
preferred compositor n = 120

-- The factor is an `i32`, which is only passed on.
unfoldable pub whole : XwaylandScale → ℕ → ℕ
whole native factor = factor
whole round_up factor = factor
whole compositor factor = 1
