-- ===== src/Nlc/Dpcm/Loop.antt =====
-- internal/groovy/nlc/codec.go: the line decoder against the encoder's reconstruction and its source.
use mi_ster_groovy_relay.Prelude.{
  ℕ, zero, suc, ◌+◌, ◌≤◌, ◌≡◌, refl, ap, ap₂, ◌∙◌, Bool, true, false, Option, none, some, List, [],
  ◌∷◌, arith, length,
}
use mi_ster_groovy_relay.Prelude.Int.{
  negsuc, ℤ, pos, pos_part, neg_part, ◌+ℤ◌, ◌-ℤ◌, +ℤ_parts, -ℤ_parts, add-sub_cancel,
}
use mi_ster_groovy_relay.Nlc.Colour.{iclamp}
use mi_ster_groovy_relay.Nlc.Colour.Laws.{Within, iclamp-Within, iclamp_self}
use mi_ster_groovy_relay.Nlc.Residual.{neg, nl_quant, nl_dequant}
use mi_ster_groovy_relay.Nlc.Residual.Laws.{
  unzz-zz, nl_quant-zero, nl_dequant-zero, nl_dequant-nl_quant, nl_quant_bound, med_predict-Within,
}
use mi_ster_groovy_relay.Nlc.Dpcm.{
  predict, encode_value, decode_value, encode_from, decode_from, line_encode, line_decode,
}

abbrev pub AllWithin : ℤ → ℤ → List ℤ → Type 0
AllWithin lo hi [] = Unit
AllWithin lo hi (v ∷ vs) = Within lo hi v × AllWithin lo hi vs

-- The range of a plane: it holds 0 and lies in -255 to 255.
abbrev pub IsPlane : ℤ → ℤ → Type 0
IsPlane lo hi = Within lo hi (pos 0) × (neg_part lo ≤ 255) × (pos_part hi ≤ 255)

abbrev pub BehindWithin : ℤ → ℤ → Option (ℤ × ℤ) → Type 0
BehindWithin lo hi none = Unit
BehindWithin lo hi (some (left, above_left)) = Within lo hi left × Within lo hi above_left

-- Corresponding values differ by at most `near`.
abbrev pub AllNear : ℕ → List ℤ → List ℤ → Type 0
AllNear near [] [] = Unit
AllNear near [] (w ∷ ws) = ⊥
AllNear near (v ∷ vs) [] = ⊥
AllNear near (v ∷ vs) (w ∷ ws) = Within (neg (pos near)) (pos near) (w -ℤ v) × AllNear near vs ws

small_parts :
    (e : ℤ) (m : ℕ)
    → pos_part e ≤ m + neg_part e
    → neg_part e ≤ m + pos_part e
    → (pos_part e ≤ m) × (neg_part e ≤ m)
small_parts (pos n) m h k = omega arith
small_parts (negsuc n) m h k = omega arith

neg_parts : (n : ℕ) → (pos_part (neg (pos n)) ≡ 0) × (neg_part (neg (pos n)) ≡ n)
neg_parts zero = (refl, refl)
neg_parts (suc n) = (refl, refl)

-- Clamping to a range that holds `v` brings no value further from `v`.
iclamp_near :
    (n : ℕ) (x v lo hi : ℤ)
    → Within lo hi v
    → Within (neg (pos n)) (pos n) (x -ℤ v)
    → Within (neg (pos n)) (pos n) (iclamp x lo hi -ℤ v)
unfolding iclamp
iclamp_near n x v lo hi t h =
    ground (arith, neg_parts n, -ℤ_parts x v, -ℤ_parts lo v, -ℤ_parts hi v, t, h)

module _ (lo hi : ℤ) (plane : IsPlane lo hi) where
  pub predict-Within :
      (below : Bool) (behind : Option (ℤ × ℤ)) (above : ℤ)
      → BehindWithin lo hi behind
      → Within lo hi above
      → Within lo hi (predict below behind above)
  unfolding predict
  predict-Within true none above h k = med_predict-Within lo hi above above above k k k
  predict-Within false none above h k =
      med_predict-Within lo hi (pos 0) (pos 0) (pos 0) plane.0 plane.0 plane.0
  predict-Within true (some (left, above_left)) above (h, g) k =
      med_predict-Within lo hi left above above_left h k g
  predict-Within false (some (left, above_left)) above (h, g) k =
      med_predict-Within lo hi left left left h h h

  module _ (near : ℕ) (few : near ≤ 3) (pred v : ℤ) (p : Within lo hi pred)
      (t : Within lo hi v) where
    pub residual_bound :
        (pos_part (nl_quant (v -ℤ pred) near) ≤ 510) × (neg_part (nl_quant (v -ℤ pred) near) ≤ 510)
    residual_bound =
        let e = v -ℤ pred in
        let (a, b) =
          small_parts e 510 (omega (arith, plane, p, t, -ℤ_parts v pred))
            (omega (arith, plane, p, t, -ℤ_parts v pred)) in
        nl_quant_bound e near 510 few a b

    pub encode_value-Within : Within lo hi (encode_value near lo hi pred v).0
    unfolding encode_value
    encode_value-Within =
        iclamp-Within (pred +ℤ nl_dequant (nl_quant (v -ℤ pred) near) near) lo hi (omega (arith, t))

    decode_value-encode_value :
        decode_value near lo hi pred (encode_value near lo hi pred v).1
        ≡ (encode_value near lo hi pred v).0
    unfolding encode_value decode_value
    decode_value-encode_value =
        let (a, b) = residual_bound in
        ap (λ q. iclamp (pred +ℤ nl_dequant q near) lo hi)
          (unzz-zz (nl_quant (v -ℤ pred) near) (omega (arith, a)) (omega (arith, b)))

    encode_value_near : Within (neg (pos near)) (pos near) ((encode_value near lo hi pred v).0 -ℤ v)
    unfolding encode_value
    encode_value_near =
        let e = v -ℤ pred in
        let d = nl_dequant (nl_quant e near) near in
        iclamp_near near (pred +ℤ d) v lo hi t (
          omega (
            arith,
            neg_parts near,
            nl_dequant-nl_quant e near few,
            -ℤ_parts d e,
            -ℤ_parts v pred,
            +ℤ_parts pred d,
            -ℤ_parts (pred +ℤ d) v,
          ))

  encode_value_lossless : (pred v : ℤ) → Within lo hi v → (encode_value 0 lo hi pred v).0 ≡ v
  unfolding encode_value
  encode_value_lossless pred v t =
      rw (nl_quant-zero (v -ℤ pred), nl_dequant-zero (v -ℤ pred), add-sub_cancel pred v)
        (iclamp_self v lo hi t)

  -- What the encoder of a row does, for the decoder that runs behind it.
  pub record Follows (below : Bool) (near : ℕ) (behind : Option (ℤ × ℤ)) (vs prev : List ℤ)
      : Type 0 where
    pub same :
        decode_from below near lo hi behind (encode_from below near lo hi behind vs prev).1 prev
        ≡ (encode_from below near lo hi behind vs prev).0
    pub within : AllWithin lo hi (encode_from below near lo hi behind vs prev).0
    pub close : AllNear near vs (encode_from below near lo hi behind vs prev).0

  encode_from-Follows :
      (below : Bool) (near : ℕ) (behind : Option (ℤ × ℤ)) (vs prev : List ℤ)
      → near ≤ 3
      → BehindWithin lo hi behind
      → length prev ≡ length vs
      → AllWithin lo hi vs
      → AllWithin lo hi prev
      → Follows below near behind vs prev
  unfolding encode_from decode_from
  encode_from-Follows below near behind [] [] l h e t p = record {
    same = refl;
    within = tt;
    close = tt;
  }
  encode_from-Follows below near behind [] (a ∷ prev) l h e t p = absurd (omega arith)
  encode_from-Follows below near behind (v ∷ vs) [] l h e t p = absurd (omega arith)
  encode_from-Follows below near behind (v ∷ vs) (above ∷ prev) l h e (t, ts) (p, ps) =
      let pred = predict below behind above in
      let q = predict-Within below behind above h p in
      let w = encode_value-Within near l pred v q t in
      let same = decode_value-encode_value near l pred v q t in
      let rest =
        encode_from-Follows below near (some ((encode_value near lo hi pred v).0, above)) vs prev l
          (w, p) (omega arith) ts ps in
      record {
        same =
            ap
              (λ r.
                r
                ∷ decode_from below near lo hi (some (r, above))
                    (encode_from below near lo hi (some ((encode_value near lo hi pred v).0, above))
                      vs prev).1
                    prev)
              same
            ∙ ap (λ r. (encode_value near lo hi pred v).0 ∷ r) rest.same;
        within = (w, rest.within);
        close = (encode_value_near near l pred v q t, rest.close);
      }

  encode_from_lossless :
      (below : Bool) (behind : Option (ℤ × ℤ)) (vs prev : List ℤ)
      → length prev ≡ length vs
      → AllWithin lo hi vs
      → (encode_from below 0 lo hi behind vs prev).0 ≡ vs
  unfolding encode_from
  encode_from_lossless below behind [] [] e t = refl
  encode_from_lossless below behind [] (a ∷ prev) e t = absurd (omega arith)
  encode_from_lossless below behind (v ∷ vs) [] e t = absurd (omega arith)
  encode_from_lossless below behind (v ∷ vs) (above ∷ prev) e (t, ts) =
      let pred = predict below behind above in
      ap₂ ◌∷◌ (encode_value_lossless pred v t) (
        encode_from_lossless below (some ((encode_value 0 lo hi pred v).0, above)) vs prev
          (omega arith) ts)

-- For a row and the one above it, of the same length and with values in the range of a plane (which
-- holds 0 and lies in -255 to 255), and a level of at most 3: the decoder gives the row that the
-- encoder reconstructed, whose values are in the range, and differ from those of the row by at most
-- the level.
pub line_decode-line_encode :
    (lo hi : ℤ) (near : ℕ) (below : Bool) (t prev : List ℤ)
    → IsPlane lo hi
    → near ≤ 3
    → length prev ≡ length t
    → AllWithin lo hi t
    → AllWithin lo hi prev
    → let (cur, u) = line_encode t prev below near lo hi in
      (line_decode u prev below near lo hi ≡ cur) × AllWithin lo hi cur × AllNear near t cur
unfolding line_encode line_decode
line_decode-line_encode lo hi near below t prev plane few size ht hp =
    let f = encode_from-Follows lo hi plane below near none t prev few tt size ht hp in
    (f.same, f.within, f.close)

-- At level 0, for a row and the one above it of the same length and with values in the range of a
-- plane, the decoder gives the row itself.
pub line_decode-line_encode_lossless :
    (lo hi : ℤ) (below : Bool) (t prev : List ℤ)
    → IsPlane lo hi
    → length prev ≡ length t
    → AllWithin lo hi t
    → AllWithin lo hi prev
    → line_decode (line_encode t prev below 0 lo hi).1 prev below 0 lo hi ≡ t
unfolding line_encode line_decode
line_decode-line_encode_lossless lo hi below t prev plane size ht hp =
    (encode_from-Follows lo hi plane below 0 none t prev (omega arith) tt size ht hp).same
    ∙ encode_from_lossless lo hi plane below none t prev size ht
