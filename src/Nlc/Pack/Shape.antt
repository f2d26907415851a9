-- ===== src/Nlc/Pack/Shape.antt =====
-- internal/groovy/nlc/codec.go: how many values a line is unpacked to, for any input.
use mi_ster_groovy_relay.Prelude.{
  ℕ, zero, suc, ◌-◌, ◌≤◌, ◌≡◌, refl, sym, ap, inl, inr, List, arith, ltb, ◌==◌, if◌then◌else◌,
  ==_iff, Bool-cases, length, length-append,
}
use mi_ster_groovy_relay.Nlc.BitIo.{BitR, get}
use mi_ster_groovy_relay.Nlc.Pack.{
  tile_len, width_bits, get_all, rice_get, rice_get_all, unpack_tiles, unpack_tile_tiled,
  unpack_tile_rice, unpack_line_tiled, unpack_line_rice,
}

length-get_all : (n : ℕ) (br : BitR) (w : ℕ) → length (get_all n br w).0 ≡ n
unfolding get_all
length-get_all zero br w = refl
length-get_all (suc n) br w = ap suc (length-get_all n (get br w).1 w)

length-rice_get_all : (n : ℕ) (br : BitR) (k : ℕ) → length (rice_get_all n br k).0 ≡ n
unfolding rice_get_all
length-rice_get_all zero br k = refl
length-rice_get_all (suc n) br k = ap suc (length-rice_get_all n (rice_get br k).1 k)

length-unpack_tiles :
    (unpack_tile : BitR → ℕ → List ℕ × BitR)
    → ((br : BitR) (n : ℕ) → length (unpack_tile br n).0 ≡ n)
    → (rounds : ℕ) (br : BitR) (left : ℕ) → left ≤ rounds
    → length (unpack_tiles unpack_tile rounds br left).0 ≡ left
unfolding unpack_tiles
length-unpack_tiles unpack_tile each zero br left h = omega arith
length-unpack_tiles unpack_tile each (suc rounds) br left h =
    let n = (if ltb left tile_len then left else tile_len) in
    let (seg, br') = unpack_tile br n in
    elim (Bool-cases (left == 0)) [
      | inl none_left ↦ rw none_left (sym ((==_iff _ _).0 none_left))
      | inr some_left ↦
          let few : (n ≤ left) × (left - n ≤ rounds) = (ground arith, ground arith) in
          rw some_left (
            omega (
              arith,
              few,
              length-append seg (unpack_tiles unpack_tile rounds br' (left - n)).0,
              each br n,
              length-unpack_tiles unpack_tile each rounds br' (left - n) few.1,
            ))
    ]

pub length-unpack_line_tiled : (br : BitR) (w : ℕ) → length (unpack_line_tiled br w).0 ≡ w
unfolding unpack_line_tiled unpack_tile_tiled
length-unpack_line_tiled br w =
    length-unpack_tiles unpack_tile_tiled
      (λ r n. length-get_all n (get r width_bits).1 (get r width_bits).0) w br w (omega arith)

pub length-unpack_line_rice : (br : BitR) (w : ℕ) → length (unpack_line_rice br w).0 ≡ w
unfolding unpack_line_rice unpack_tile_rice
length-unpack_line_rice br w =
    length-unpack_tiles unpack_tile_rice
      (λ r n. length-rice_get_all n (get r width_bits).1 (get r width_bits).0) w br w (omega arith)
