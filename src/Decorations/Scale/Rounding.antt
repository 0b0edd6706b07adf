-- ===== src/Decorations/Scale/Rounding.antt =====
-- Rounding a scale up, in src/decorations/scale.rs.
use psbox.Common.{ℕ, ◌*◌, ◌%◌, ◌≤◌, ◌≡◌, arith}
use psbox.Decorations.Scale.{XwaylandScale, u32_max, preferred}

-- For a scale in 120ths of at most 4294967280, the last whole scale of 32 bits: however it is
-- changed it fits 32 bits, and rounding up gives a whole scale, at least one, that is the
-- least such that is no smaller, which rounding up again leaves as it is.
pub preferred_lem :
    (scale : XwaylandScale) (n : ℕ)
    → n ≤ 4294967280
    → (preferred scale n ≤ u32_max)
      × (preferred XwaylandScale.round_up n % 120 ≡ 0)
      × (120 ≤ preferred XwaylandScale.round_up n)
      × (n ≤ preferred XwaylandScale.round_up n)
      × ((k : ℕ) → 1 ≤ k → n ≤ k * 120 → preferred XwaylandScale.round_up n ≤ k * 120)
      × (preferred XwaylandScale.round_up (preferred XwaylandScale.round_up n)
          ≡ preferred XwaylandScale.round_up n)
unfolding preferred
preferred_lem scale n small = (
  stays scale,
  omega arith,
  omega arith,
  omega arith,
  (λ k some_whole above. omega arith),
  omega arith,
)
  where
    stays : (scale : XwaylandScale) → preferred scale n ≤ u32_max
    stays XwaylandScale.native = omega arith
    stays XwaylandScale.round_up = omega arith
    stays XwaylandScale.compositor = omega arith
