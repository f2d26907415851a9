-- ===== src/Nlc/Frame/Source.antt =====
-- internal/groovy/nlc/encode.go: the rows of a source and what the closed loop makes of them.
use mi_ster_groovy_relay.Prelude.{
  ℕ, zero, suc, ◌+◌, ◌*◌, ◌^◌, ◌≤◌, ◌<◌, ◌≡◌, sym, ◌∙◌, List, arith, ltb, length, drop, replicate,
  length-take, length-drop, length-replicate,
}
use native.Mathlib.Nat.{mul-le-mul_right}
use mi_ster_groovy_relay.Prelude.Int.{ℤ, pos}
use mi_ster_groovy_relay.Nlc.BitIo.View.{AllBytes}
use mi_ster_groovy_relay.Nlc.BitIo.Bytes.{take-AllBytes, drop-AllBytes}
use mi_ster_groovy_relay.Nlc.Colour.{plane_range}
use mi_ster_groovy_relay.Nlc.Planes.{bpp, to_plane_line}
use mi_ster_groovy_relay.Nlc.Planes.RoundTrip.{
  IsRow, plane_range-IsPlane, length-to_plane_line, to_plane_line-AllWithin,
}
use mi_ster_groovy_relay.Nlc.Dpcm.{line_encode, line_decode}
use mi_ster_groovy_relay.Nlc.Dpcm.Loop.{
  AllWithin, AllNear, line_decode-line_encode, line_decode-line_encode_lossless,
}
use mi_ster_groovy_relay.Nlc.Dpcm.Residuals.{IsEncoded, line_encode-IsEncoded}
use mi_ster_groovy_relay.Nlc.Pack.Format.{Below}
use mi_ster_groovy_relay.Nlc.Frame.{Params, row_at, max_width}

-- What `validate` asks for, and a source of the right size.
pub record IsSource (p : Params) (src : List ℕ) : Type 0 where
  pub narrow : p.width ≤ max_width
  pub gentle : p.near ≤ 3
  pub size : length src ≡ p.height * (p.width * bpp)
  pub bytes : AllBytes src

pub row_at-IsRow :
    (p : Params) (src : List ℕ) (y : ℕ)
    → IsSource p src
    → y < p.height
    → IsRow p.width (row_at p src y)
row_at-IsRow p src y h below =
    let n = p.width * bpp in
    let last : (y + 1) * n ≤ p.height * n = mul-le-mul_right n (omega (arith, below)) in
    let e : (y + 1) * n ≡ y * n + n = grind arith in
    (
      omega (arith, last, e, h.size, length-take n (drop (y * n) src), length-drop (y * n) src),
      take-AllBytes n (drop (y * n) src) (drop-AllBytes (y * n) src h.bytes),
    )

-- The reconstructed row `y` of plane `k` and its residuals, with the reconstructed row above.
abbrev pub loop_line : Params → ℕ → List ℕ → ℕ → List ℤ → List ℤ × List ℕ
loop_line p k src y prev =
    let (lo, hi) = plane_range k in
    line_encode (to_plane_line (row_at p src y) k) prev (ltb 0 y) p.near lo hi

-- A reconstructed row of plane `k`.
abbrev pub IsPlaneRow : Params → ℕ → List ℤ → Type 0
IsPlaneRow p k row = let (lo, hi) = plane_range k in (length row ≡ p.width) × AllWithin lo hi row

module _ (p : Params) (k : ℕ) (src : List ℕ) (y : ℕ) (prev : List ℤ) (h : IsSource p src)
    (below : y < p.height) (above : IsPlaneRow p k prev) where
  abbrev plane_line : List ℤ
  plane_line = to_plane_line (row_at p src y) k

  is_row : IsRow p.width (row_at p src y)
  is_row = row_at-IsRow p src y h below

  size : length prev ≡ length plane_line
  size = above.0 ∙ sym (length-to_plane_line p.width k (row_at p src y) is_row)

  encoded : IsEncoded plane_line (loop_line p k src y prev)
  encoded =
      line_encode-IsEncoded (plane_range k).0 (plane_range k).1 p.near (ltb 0 y) plane_line prev
        (plane_range-IsPlane k) h.gentle size (to_plane_line-AllWithin p.width k _ is_row) above.1

  abbrev decoded :
      (line_decode
          (loop_line p k src y prev).1
          prev
          (ltb 0 y)
          p.near
          (plane_range k).0
          (plane_range k).1
        ≡ (loop_line p k src y prev).0)
      × AllWithin (plane_range k).0 (plane_range k).1 (loop_line p k src y prev).0
      × AllNear p.near plane_line (loop_line p k src y prev).0
  decoded =
      line_decode-line_encode (plane_range k).0 (plane_range k).1 p.near (ltb 0 y) plane_line prev
        (plane_range-IsPlane k) h.gentle size (to_plane_line-AllWithin p.width k _ is_row) above.1

  pub loop_line-Below :
      Below (2 ^ 10) (loop_line p k src y prev).1 × (length (loop_line p k src y prev).1 ≡ p.width)
  loop_line-Below = (encoded.0, encoded.1 ∙ length-to_plane_line p.width k (row_at p src y) is_row)

  pub loop_line-IsPlaneRow : IsPlaneRow p k (loop_line p k src y prev).0
  loop_line-IsPlaneRow =
      (encoded.2 ∙ length-to_plane_line p.width k (row_at p src y) is_row, decoded.1)

  pub line_decode-loop_line :
      line_decode
        (loop_line p k src y prev).1
        prev
        (ltb 0 y)
        p.near
        (plane_range k).0
        (plane_range k).1
      ≡ (loop_line p k src y prev).0
  line_decode-loop_line = decoded.0

  pub loop_line_lossless : p.near ≡ 0 → (loop_line p k src y prev).0 ≡ plane_line
  loop_line_lossless z =
      sym decoded.0
      ∙ rw z (
          line_decode-line_encode_lossless (plane_range k).0 (plane_range k).1 (ltb 0 y) plane_line
            prev (plane_range-IsPlane k) size (to_plane_line-AllWithin p.width k _ is_row) above.1)

zeros-AllWithin : (k n : ℕ) → AllWithin (plane_range k).0 (plane_range k).1 (replicate n (pos 0))
zeros-AllWithin k zero = tt
zeros-AllWithin k (suc n) = ((plane_range-IsPlane k).0, zeros-AllWithin k n)

-- The row above the first.
pub zeros-IsPlaneRow : (p : Params) (k : ℕ) → IsPlaneRow p k (replicate p.width (pos 0))
zeros-IsPlaneRow p k = (length-replicate p.width (pos 0), zeros-AllWithin k p.width)
