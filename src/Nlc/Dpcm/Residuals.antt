-- ===== src/Nlc/Dpcm/Residuals.antt =====
-- internal/groovy/nlc/codec.go: the residuals of a line and the lengths of its rows.
use mi_ster_groovy_relay.Prelude.{
  ℕ, suc, ◌^◌, ◌≤◌, ◌≡◌, refl, ap, Bool, Option, none, some, List, [], ◌∷◌, arith, length,
}
use mi_ster_groovy_relay.Prelude.Int.{ℤ, ◌-ℤ◌}
use mi_ster_groovy_relay.Nlc.Residual.{nl_quant}
use mi_ster_groovy_relay.Nlc.Residual.Laws.{zz-lt}
use mi_ster_groovy_relay.Nlc.Pack.Format.{Below}
use mi_ster_groovy_relay.Nlc.Dpcm.{predict, encode_value, encode_from, line_encode}
use mi_ster_groovy_relay.Nlc.Dpcm.Loop.{
  AllWithin, IsPlane, BehindWithin, predict-Within, residual_bound, encode_value-Within,
}

-- The residuals are below 2 ^ 10, and there is one residual and one value for each of the row.
abbrev pub IsEncoded : List ℤ → List ℤ × List ℕ → Type 0
IsEncoded t (cur, u) = Below (2 ^ 10) u × (length u ≡ length t) × (length cur ≡ length t)

encode_from-IsEncoded :
    (lo hi : ℤ) (plane : IsPlane lo hi) (below : Bool) (near : ℕ) (behind : Option (ℤ × ℤ))
    (vs prev : List ℤ)
    → near ≤ 3
    → BehindWithin lo hi behind
    → length prev ≡ length vs
    → AllWithin lo hi vs
    → AllWithin lo hi prev
    → IsEncoded vs (encode_from below near lo hi behind vs prev)
unfolding encode_from
encode_from-IsEncoded lo hi plane below near behind [] [] l h e t p = (tt, refl, refl)
encode_from-IsEncoded lo hi plane below near behind [] (a ∷ prev) l h e t p = absurd (omega arith)
encode_from-IsEncoded lo hi plane below near behind (v ∷ vs) [] l h e t p = absurd (omega arith)
encode_from-IsEncoded lo hi plane below near behind (v ∷ vs) (above ∷ prev) l h e (t, ts) (p, ps) =
    let pred = predict below behind above in
    let q = predict-Within lo hi plane below behind above h p in
    let w = encode_value-Within lo hi plane near l pred v q t in
    let (a, b) = residual_bound lo hi plane near l pred v q t in
    let (us, lu, lc) =
      encode_from-IsEncoded lo hi plane below near
        (some ((encode_value near lo hi pred v).0, above)) vs prev l (w, p) (omega arith) ts ps in
    let bound = zz-lt (nl_quant (v -ℤ pred) near) 510 a b in
    ((omega (arith, bound), us), ap suc lu, ap suc lc)

pub line_encode-IsEncoded :
    (lo hi : ℤ) (near : ℕ) (below : Bool) (t prev : List ℤ)
    → IsPlane lo hi
    → near ≤ 3
    → length prev ≡ length t
    → AllWithin lo hi t
    → AllWithin lo hi prev
    → IsEncoded t (line_encode t prev below near lo hi)
unfolding line_encode
line_encode-IsEncoded lo hi near below t prev plane few size ht hp =
    encode_from-IsEncoded lo hi plane below near none t prev few tt size ht hp
