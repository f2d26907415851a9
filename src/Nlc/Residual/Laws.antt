-- ===== src/Nlc/Residual/Laws.antt =====
-- internal/groovy/nlc/codec.go: the zigzag map, the quantiser's error and the range of predictions.
use mi_ster_groovy_relay.Prelude.{ℕ, zero, suc, ◌*◌, ◌^◌, ◌≤◌, ◌<◌, ◌≡◌, refl, arith}
use mi_ster_groovy_relay.Prelude.Int.{
  ℤ, pos, negsuc, pos_part, neg_part, ◌+ℤ◌, ◌-ℤ◌, ◌*ℤ◌, +ℤ_parts, -ℤ_parts,
}
use mi_ster_groovy_relay.Nlc.Colour.Laws.{Within}
use mi_ster_groovy_relay.Nlc.Residual.{neg, zz, unzz, quotient, nl_quant, nl_dequant, med_predict}

-- Residuals below 2 ^ 31 survive the zigzag map and back.
pub unzz-zz : (v : ℤ) → pos_part v < 2 ^ 31 → neg_part v < 2 ^ 31 → unzz (zz v) ≡ v
unfolding zz unzz
unzz-zz (pos n) h k = ground arith
unzz-zz (negsuc n) h k = ground arith

pub zz-lt : (v : ℤ) (m : ℕ) → pos_part v ≤ m → neg_part v ≤ m → zz v ≤ 2 * m
unfolding zz
zz-lt (pos n) m h k = omega arith
zz-lt (negsuc n) m h k = omega arith

pub nl_quant-zero : (e : ℤ) → nl_quant e 0 ≡ e
unfolding nl_quant
nl_quant-zero e = refl

pub nl_dequant-zero : (e : ℤ) → nl_dequant e 0 ≡ e
unfolding nl_dequant ◌*ℤ◌
nl_dequant-zero (pos n) = ground arith
nl_dequant-zero (negsuc n) = ground arith

-- What the quantiser loses of a residual is at most the level, for the levels up to 3.
pub nl_dequant-nl_quant :
    (e : ℤ) (near : ℕ)
    → near ≤ 3
    → Within (neg (pos near)) (pos near) (nl_dequant (nl_quant e near) near -ℤ e)
unfolding nl_quant nl_dequant ◌*ℤ◌ ◌-ℤ◌
nl_dequant-nl_quant (pos n) zero h = ground arith
nl_dequant-nl_quant (negsuc n) zero h = ground arith
nl_dequant-nl_quant (pos zero) (suc zero) h = ground arith
nl_dequant-nl_quant (pos (suc n)) (suc zero) h = ground arith
nl_dequant-nl_quant (negsuc n) (suc zero) h = ground arith
nl_dequant-nl_quant (pos n) (suc (suc zero)) h = ground arith
nl_dequant-nl_quant (negsuc n) (suc (suc zero)) h = ground arith
nl_dequant-nl_quant (pos n) (suc (suc (suc zero))) h = ground arith
nl_dequant-nl_quant (negsuc n) (suc (suc (suc zero))) h = ground arith
nl_dequant-nl_quant e (suc (suc (suc (suc n)))) h = absurd (omega arith)

quotient-le : (a near : ℕ) → 0 < near → near ≤ 3 → quotient a near ≤ a
unfolding quotient
quotient-le a near h k = ground arith

-- Quantising makes no residual larger.
pub nl_quant_bound :
    (e : ℤ) (near m : ℕ)
    → near ≤ 3
    → pos_part e ≤ m
    → neg_part e ≤ m
    → (pos_part (nl_quant e near) ≤ m) × (neg_part (nl_quant e near) ≤ m)
unfolding nl_quant
nl_quant_bound (pos zero) near m l h k = ground (arith, quotient-le 0 near)
nl_quant_bound (pos (suc n)) near m l h k = ground (arith, quotient-le (suc n) near)
nl_quant_bound (negsuc n) near m l h k = ground (arith, quotient-le (suc n) near)

-- The prediction from three neighbours within a range is within that range.
pub med_predict-Within :
    (lo hi a b c : ℤ)
    → Within lo hi a
    → Within lo hi b
    → Within lo hi c
    → Within lo hi (med_predict a b c)
unfolding med_predict
med_predict-Within lo hi a b c ha hb hc = ground (arith, +ℤ_parts a b, -ℤ_parts (a +ℤ b) c)
