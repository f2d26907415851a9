-- ===== src/Nlc/Colour.antt =====
-- internal/groovy/nlc/codec.go: the colour transform and the clamp. `int` is 64 bits wide and the
-- values stay below 1024, so it is ℤ here.
pub mod Laws
use mi_ster_groovy_relay.Prelude.{ℕ, zero, suc, ◌/◌, if◌then◌else◌}
use mi_ster_groovy_relay.Prelude.Int.{ℤ, pos, negsuc, ◌+ℤ◌, ◌-ℤ◌, ltb_ℤ}

-- `v >> 1`, the arithmetic shift.
unfoldable pub half : ℤ → ℤ
half (pos n) = pos (n / 2)
half (negsuc n) = negsuc (n / 2)

unfoldable pub iclamp : ℤ → ℤ → ℤ → ℤ
iclamp v lo hi = if ltb_ℤ v lo then lo else if ltb_ℤ hi v then hi else v

unfoldable pub rgb_to_ycocg : ℤ → ℤ → ℤ → ℤ × ℤ × ℤ
rgb_to_ycocg r g b =
    let co = r -ℤ b in
    let t = b +ℤ half co in let cg = g -ℤ t in let y = t +ℤ half cg in (y, co, cg)

unfoldable pub ycocg_to_rgb : ℤ → ℤ → ℤ → ℤ × ℤ × ℤ
ycocg_to_rgb y co cg =
    let t = y -ℤ half cg in let g = cg +ℤ t in let b = t -ℤ half co in let r = b +ℤ co in (r, g, b)

-- The range of a plane's values: Y, then Co and Cg.
unfoldable pub plane_range : ℕ → ℤ × ℤ
plane_range zero = (pos 0, pos 255)
plane_range (suc p) = (negsuc 254, pos 255)
