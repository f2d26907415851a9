-- ===== src/Nlc/Colour/Laws.antt =====
-- internal/groovy/nlc/codec.go: the inverse of the colour transform, and the ranges of its values.
use mi_ster_groovy_relay.Prelude.{ℕ, ◌+◌, ◌*◌, ◌≤◌, ◌<◌, ◌≡◌, arith}
use mi_ster_groovy_relay.Prelude.Int.{
  ◌-ℤ◌, ◌+ℤ◌, +ℤ_parts, -ℤ_parts, +ℤ_cancel, add-sub_cancel, sub-add_cancel, ℤ, pos, negsuc,
  pos_part, neg_part, ◌≤ℤ◌,
}
use mi_ster_groovy_relay.Nlc.Colour.{half, iclamp, rgb_to_ycocg, ycocg_to_rgb}

-- The inverse colour transform gives back every triple of integers, not only those of bytes.
pub ycocg_to_rgb-rgb_to_ycocg :
    (r g b : ℤ) → let (y, co, cg) = rgb_to_ycocg r g b in ycocg_to_rgb y co cg ≡ (r, g, b)
unfolding rgb_to_ycocg ycocg_to_rgb
ycocg_to_rgb-rgb_to_ycocg r g b = simp (+ℤ_cancel, add-sub_cancel, sub-add_cancel)

half_parts :
    (v : ℤ)
    → (neg_part v + 2 * pos_part (half v) ≤ pos_part v + 2 * neg_part (half v))
      × (pos_part v + 2 * neg_part (half v) ≤ neg_part v + 2 * pos_part (half v) + 1)
unfolding half
half_parts (pos n) = omega arith
half_parts (negsuc n) = omega arith

abbrev pub Within : ℤ → ℤ → ℤ → Type 0
Within lo hi v = (lo ≤ℤ v) × (v ≤ℤ hi)

-- Of a pixel of bytes, Y lies in 0 to 255, and Co and Cg in -255 to 255.
pub rgb_to_ycocg-Within :
    (r g b : ℕ)
    → r < 256
    → g < 256
    → b < 256
    → let (y, co, cg) = rgb_to_ycocg (pos r) (pos g) (pos b) in
      Within (pos 0) (pos 255) y
      × Within (negsuc 254) (pos 255) co
      × Within (negsuc 254) (pos 255) cg
unfolding rgb_to_ycocg
rgb_to_ycocg-Within r g b hr hg hb =
    let co = pos r -ℤ pos b in
    let t = pos b +ℤ half co in
    let cg = pos g -ℤ t in
    omega (
      arith,
      -ℤ_parts (pos r) (pos b),
      half_parts co,
      +ℤ_parts (pos b) (half co),
      -ℤ_parts (pos g) t,
      half_parts cg,
      +ℤ_parts t (half cg),
    )

pub iclamp-Within : (v lo hi : ℤ) → lo ≤ℤ hi → Within lo hi (iclamp v lo hi)
unfolding iclamp
iclamp-Within v lo hi h = ground arith

pub iclamp_self : (v lo hi : ℤ) → Within lo hi v → iclamp v lo hi ≡ v
unfolding iclamp
iclamp_self v lo hi h = ground arith
