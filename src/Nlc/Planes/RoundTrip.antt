-- ===== src/Nlc/Planes/RoundTrip.antt =====
-- internal/groovy/nlc/codec.go: the rows of the planes of a row of bytes.
use mi_ster_groovy_relay.Prelude.{
  ℕ, zero, suc, ◌*◌, ◌<◌, ◌≡◌, refl, ap, List, [], ◌∷◌, arith, length,
}
use mi_ster_groovy_relay.Prelude.Int.{pos}
use mi_ster_groovy_relay.Nlc.Colour.{iclamp, rgb_to_ycocg, plane_range}
use mi_ster_groovy_relay.Nlc.Colour.Laws.{ycocg_to_rgb-rgb_to_ycocg, rgb_to_ycocg-Within, Within}
use mi_ster_groovy_relay.Nlc.Dpcm.Loop.{AllWithin, IsPlane}
use mi_ster_groovy_relay.Nlc.BitIo.View.{AllBytes}
use mi_ster_groovy_relay.Nlc.Planes.{bpp, component, to_plane_line, channel, combine_line}

channel-pos : (v : ℕ) → v < 256 → channel (pos v) ≡ v
unfolding iclamp
channel-pos v h = ground arith

-- A row of `w` pixels of bytes.
abbrev pub IsRow : ℕ → List ℕ → Type 0
IsRow w row = (length row ≡ w * bpp) × AllBytes row

pub plane_range-IsPlane : (k : ℕ) → let (lo, hi) = plane_range k in IsPlane lo hi
unfolding plane_range
plane_range-IsPlane zero = omega arith
plane_range-IsPlane (suc k) = omega arith

component-Within :
    (k r g b : ℕ)
    → r < 256
    → g < 256
    → b < 256
    → let (lo, hi) = plane_range k in
      Within lo hi (component k (rgb_to_ycocg (pos r) (pos g) (pos b)))
unfolding plane_range component
component-Within zero r g b hr hg hb = (rgb_to_ycocg-Within r g b hr hg hb).0
component-Within (suc zero) r g b hr hg hb = (rgb_to_ycocg-Within r g b hr hg hb).1
component-Within (suc (suc k)) r g b hr hg hb = (rgb_to_ycocg-Within r g b hr hg hb).2

pub length-to_plane_line : (w k : ℕ) (row : List ℕ) → IsRow w row → length (to_plane_line row k) ≡ w
unfolding to_plane_line
length-to_plane_line zero k [] h = refl
length-to_plane_line zero k (r ∷ row) h = absurd (omega arith)
length-to_plane_line (suc w) k [] h = absurd (omega arith)
length-to_plane_line (suc w) k (r ∷ []) h = absurd (omega arith)
length-to_plane_line (suc w) k (r ∷ g ∷ []) h = absurd (omega arith)
length-to_plane_line (suc w) k (r ∷ g ∷ b ∷ row) (h, (hr, (hg, (hb, hs)))) =
    ap suc (length-to_plane_line w k row (omega arith, hs))

pub to_plane_line-AllWithin :
    (w k : ℕ) (row : List ℕ)
    → IsRow w row
    → let (lo, hi) = plane_range k in AllWithin lo hi (to_plane_line row k)
unfolding to_plane_line
to_plane_line-AllWithin w k [] h = tt
to_plane_line-AllWithin w k (r ∷ []) h = tt
to_plane_line-AllWithin w k (r ∷ g ∷ []) h = tt
to_plane_line-AllWithin zero k (r ∷ g ∷ b ∷ row) h = absurd (omega arith)
to_plane_line-AllWithin (suc w) k (r ∷ g ∷ b ∷ row) (h, (hr, (hg, (hb, hs)))) =
    (component-Within k r g b hr hg hb, to_plane_line-AllWithin w k row (omega arith, hs))

-- The three planes of a row of bytes, combined, give the row.
pub combine_line-to_plane_line :
    (w : ℕ) (row : List ℕ)
    → IsRow w row
    → combine_line (to_plane_line row 0) (to_plane_line row 1) (to_plane_line row 2) ≡ row
unfolding combine_line to_plane_line component
combine_line-to_plane_line zero [] h = refl
combine_line-to_plane_line zero (r ∷ row) h = absurd (omega arith)
combine_line-to_plane_line (suc w) [] h = absurd (omega arith)
combine_line-to_plane_line (suc w) (r ∷ []) h = absurd (omega arith)
combine_line-to_plane_line (suc w) (r ∷ g ∷ []) h = absurd (omega arith)
combine_line-to_plane_line (suc w) (r ∷ g ∷ b ∷ row) (h, (hr, (hg, (hb, hs)))) =
    rw
      (
        ycocg_to_rgb-rgb_to_ycocg (pos r) (pos g) (pos b),
        channel-pos r hr,
        channel-pos g hg,
        channel-pos b hb,
        combine_line-to_plane_line w row (omega arith, hs),
      )
      refl
