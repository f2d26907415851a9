-- ===== src/Nlc/Planes.antt =====
-- internal/groovy/nlc/codec.go: a row of RGB bytes as the rows of three planes, and back. The rows
-- are whole pixels.
pub mod RoundTrip
use mi_ster_groovy_relay.Prelude.{ℕ, zero, suc, List, [], ◌∷◌}
use mi_ster_groovy_relay.Prelude.Int.{ℤ, pos, pos_part}
use mi_ster_groovy_relay.Nlc.Colour.{iclamp, rgb_to_ycocg, ycocg_to_rgb}

abbrev pub bpp : ℕ
bpp = 3

-- The plane's component of a pixel; every plane but the first two takes the third.
unfoldable pub component : ℕ → ℤ × ℤ × ℤ → ℤ
component zero (y, co, cg) = y
component (suc zero) (y, co, cg) = co
component (suc (suc k)) (y, co, cg) = cg

unfoldable pub to_plane_line : List ℕ → ℕ → List ℤ
unfolding component
to_plane_line (r ∷ g ∷ b ∷ row) k =
    component k (rgb_to_ycocg (pos r) (pos g) (pos b)) ∷ to_plane_line row k
to_plane_line row k = []

-- `uint8(iclamp(v, 0, 255))`: a clamped value has no sign.
abbrev pub channel : ℤ → ℕ
channel v = pos_part (iclamp v (pos 0) (pos 255))

unfoldable pub combine_line : List ℤ → List ℤ → List ℤ → List ℕ
combine_line (y ∷ ys) (co ∷ cos) (cg ∷ cgs) =
    let (r, g, b) = ycocg_to_rgb y co cg in
    channel r ∷ channel g ∷ channel b ∷ combine_line ys cos cgs
combine_line ys cos cgs = []
