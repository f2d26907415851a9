-- ===== src/Nlc/Dpcm.antt =====
-- internal/groovy/nlc/codec.go: a line of a plane as residuals, in a closed loop. `int` is 64 bits
-- wide and the values stay below 2048, so it is ℤ here, as is the int16 of the rows.
pub mod Loop
pub mod Residuals
use mi_ster_groovy_relay.Prelude.{ℕ, Bool, Option, none, some, List, [], ◌∷◌, if◌then◌else◌}
use mi_ster_groovy_relay.Prelude.Int.{ℤ, pos, ◌+ℤ◌, ◌-ℤ◌}
use mi_ster_groovy_relay.Nlc.Colour.{iclamp}
use mi_ster_groovy_relay.Nlc.Residual.{zz, unzz, nl_quant, nl_dequant, med_predict}

-- `below` is `y > 0`, `behind` is (cur[x-1], prev[x-1]) where `x > 0`, and `above` is prev[x].
unfoldable pub predict : Bool → Option (ℤ × ℤ) → ℤ → ℤ
predict below behind above =
    let ra : ℤ = elim behind [
      | some (left, above_left) ↦ left
      | none ↦ if below then above else pos 0
    ] in
    let rb : ℤ = if below then above else ra in
    let rc : ℤ = elim behind [
      | some (left, above_left) ↦ if below then above_left else rb
      | none ↦ rb
    ] in
    med_predict ra rb rc

-- The reconstructed value and the residual of one value.
unfoldable pub encode_value : ℕ → ℤ → ℤ → ℤ → ℤ → ℤ × ℕ
encode_value near lo hi pred v =
    let qe = nl_quant (v -ℤ pred) near in (iclamp (pred +ℤ nl_dequant qe near) lo hi, zz qe)

unfoldable pub decode_value : ℕ → ℤ → ℤ → ℤ → ℕ → ℤ
decode_value near lo hi pred u = iclamp (pred +ℤ nl_dequant (unzz u) near) lo hi

module _ (below : Bool) (near : ℕ) (lo hi : ℤ) where
  -- From column `x` on, of the source row and the row above: the reconstructed row and the
  -- residuals. The rows have the same length.
  unfoldable pub encode_from : Option (ℤ × ℤ) → List ℤ → List ℤ → List ℤ × List ℕ
  unfolding predict encode_value
  encode_from behind (v ∷ vs) (above ∷ prev) =
      let (rv, u) = encode_value near lo hi (predict below behind above) v in
      let (cur, us) = encode_from (some (rv, above)) vs prev in (rv ∷ cur, u ∷ us)
  encode_from behind vs prev = ([], [])

  unfoldable pub decode_from : Option (ℤ × ℤ) → List ℕ → List ℤ → List ℤ
  unfolding predict decode_value
  decode_from behind (u ∷ us) (above ∷ prev) =
      let rv = decode_value near lo hi (predict below behind above) u in
      rv ∷ decode_from (some (rv, above)) us prev
  decode_from behind us prev = []

unfoldable pub line_encode : List ℤ → List ℤ → Bool → ℕ → ℤ → ℤ → List ℤ × List ℕ
unfolding encode_from
line_encode t prev below near lo hi = encode_from below near lo hi none t prev

unfoldable pub line_decode : List ℕ → List ℤ → Bool → ℕ → ℤ → ℤ → List ℤ
unfolding decode_from
line_decode u prev below near lo hi = decode_from below near lo hi none u prev
