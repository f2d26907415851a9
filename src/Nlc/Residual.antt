-- ===== src/Nlc/Residual.antt =====
-- internal/groovy/nlc/codec.go: residuals, their quantiser and the zigzag map, and the predictor.
pub mod Laws
use mi_ster_groovy_relay.Prelude.{
  ℕ, zero, suc, ◌+◌, ◌-◌, ◌*◌, ◌/◌, ◌%◌, ◌^◌, not, ◌==◌, if◌then◌else◌,
}
use mi_ster_groovy_relay.Prelude.Int.{ℤ, pos, negsuc, pos_part, neg_part, ◌+ℤ◌, ◌-ℤ◌, ◌*ℤ◌, ltb_ℤ}

-- `-v`
abbrev pub neg : ℤ → ℤ
neg (pos zero) = pos 0
neg (pos (suc n)) = negsuc n
neg (negsuc n) = pos (suc n)

-- `uint32(v << 1)`, or `uint32(((-v) << 1) - 1)`.
unfoldable pub zz : ℤ → ℕ
zz (pos n) = n * 2 % 2 ^ 32
zz (negsuc n) = (suc n * 2 - 1) % 2 ^ 32

unfoldable pub unzz : ℕ → ℤ
unzz u = if not (u % 2 == 0) then neg (pos ((u + 1) % 2 ^ 32 / 2)) else pos (u / 2)

-- The quotient of `a`, the absolute value of the residual.
quotient : ℕ → ℕ → ℕ
quotient a near =
    if near == 1
    then (a + 1) / 3
    else if near == 2
    then (a + 2) / 5
    else if near == 3
    then (a + 3) / 7
    else (a + near) / (2 * near + 1)

unfoldable pub nl_quant : ℤ → ℕ → ℤ
unfolding quotient
nl_quant e near =
    let positive = ltb_ℤ (pos 0) e in
    let a = pos_part e + neg_part e in
    let q = quotient a near in if near == 0 then e else if positive then pos q else neg (pos q)

unfoldable pub nl_dequant : ℤ → ℕ → ℤ
nl_dequant qe near = qe *ℤ pos (2 * near + 1)

-- `a` is the value to the left, `b` the one above and `c` the one above to the left.
unfoldable pub med_predict : ℤ → ℤ → ℤ → ℤ
med_predict a b c =
    let low = (if ltb_ℤ a b then a else b) in
    let high = (if ltb_ℤ a b then b else a) in
    if not (ltb_ℤ c high) then low else if not (ltb_ℤ low c) then high else a +ℤ b -ℤ c
