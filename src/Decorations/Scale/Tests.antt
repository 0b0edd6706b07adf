-- ===== src/Decorations/Scale/Tests.antt =====
-- Scales of src/decorations/scale.rs, as in the tests of the source.
use psbox.Common.{ℕ, ◌*◌, ◌%◌, ◌≤◌, ◌≡◌, refl, arith}
use psbox.Decorations.Scale.{XwaylandScale, u32_max, preferred, whole}
use psbox.Decorations.Scale.Rounding.{preferred_lem}

rounds :
    (preferred XwaylandScale.round_up 180 ≡ 240)
    × (preferred XwaylandScale.round_up 240 ≡ 240)
    × (preferred XwaylandScale.native 180 ≡ 180)
    × (preferred XwaylandScale.compositor 180 ≡ 120)
    × (whole XwaylandScale.round_up 2 ≡ 2)
    × (whole XwaylandScale.compositor 2 ≡ 1)
unfolding preferred whole
rounds = (refl, refl, refl, refl, refl, refl)

preferred_lem_example :
    (preferred XwaylandScale.round_up 180 ≤ u32_max)
    × (preferred XwaylandScale.round_up 180 % 120 ≡ 0)
    × (120 ≤ preferred XwaylandScale.round_up 180)
    × (180 ≤ preferred XwaylandScale.round_up 180)
    × ((k : ℕ) → 1 ≤ k → 180 ≤ k * 120 → preferred XwaylandScale.round_up 180 ≤ k * 120)
    × (preferred XwaylandScale.round_up (preferred XwaylandScale.round_up 180)
        ≡ preferred XwaylandScale.round_up 180)
preferred_lem_example = preferred_lem XwaylandScale.round_up 180 (omega arith)
