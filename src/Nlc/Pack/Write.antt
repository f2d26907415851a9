-- ===== src/Nlc/Pack/Write.antt =====
-- internal/groovy/nlc/codec.go: the bits that the packing of a line appends.
use native.Mathlib.Nat.{mod-eq_of_lt}
use mi_ster_groovy_relay.Prelude.{
  ℕ, zero, suc, ◌%◌, ◌^◌, ◌≤◌, ◌≡◌, List, [], ◌∷◌, arith, length, take, drop,
}
use mi_ster_groovy_relay.Prelude.Bits.{bits}
use mi_ster_groovy_relay.Nlc.BitIo.{BitW, put}
use mi_ster_groovy_relay.Nlc.BitIo.View.{IsReady}
use mi_ster_groovy_relay.Nlc.BitIo.Write.{Took, Took-nil, Took-append, put-Took}
use mi_ster_groovy_relay.Nlc.Pack.{
  tile_len, width_bits, tile_width, put_all, pack_tile_tiled, pack_tiles, pack_line_tiled,
}
use mi_ster_groovy_relay.Nlc.Pack.Format.{
  fields, tiled_bits, line_bits, Below, take-Below, drop-Below,
}
use mi_ster_groovy_relay.Nlc.Pack.Bounds.{tile_width_bounds}

put_all-Took :
    (bw : BitW) (w : ℕ) (vs : List ℕ)
    → IsReady bw
    → w ≤ 24
    → Took bw (fields w vs) (put_all bw w vs)
unfolding put_all
put_all-Took bw w [] v h = Took-nil bw v
put_all-Took bw w (x ∷ xs) v h =
    let p = put-Took bw x w v h in
    Took-append bw (put bw x w) (put_all (put bw x w) w xs) (bits w x) (fields w xs) p
      (put_all-Took (put bw x w) w xs p.ready h)

pack_tile_tiled-Took :
    (bw : BitW) (seg : List ℕ)
    → IsReady bw
    → Below (2 ^ 15) seg
    → Took bw (tiled_bits seg) (pack_tile_tiled bw seg)
unfolding pack_tile_tiled
pack_tile_tiled-Took bw seg v h =
    let w = tile_width 0 seg in
    let short = (tile_width_bounds 0 seg 15 (omega arith) (omega arith) h).0 in
    let e : w % 2 ^ 32 ≡ w = mod-eq_of_lt (omega (arith, short)) in
    let p = put-Took bw w width_bits v (omega arith) in
    rw e (
      Took-append bw (put bw w width_bits) (put_all (put bw w width_bits) w seg) (bits width_bits w)
        (fields w seg) p (put_all-Took (put bw w width_bits) w seg p.ready (omega (arith, short))))

-- Where every tile is written, so is the line.
pub pack_tiles-Took :
    (tile : List ℕ → List ℕ) (pack_tile : BitW → List ℕ → BitW) (m : ℕ)
    → ((bw : BitW) (seg : List ℕ)
        → IsReady bw
        → Below m seg
        → Took bw (tile seg) (pack_tile bw seg))
    → (rounds : ℕ) (bw : BitW) (u : List ℕ) → IsReady bw
    → Below m u
    → Took bw (line_bits tile rounds u) (pack_tiles pack_tile rounds bw u)
unfolding pack_tiles line_bits
pack_tiles-Took tile pack_tile m each rounds bw [] v h = Took-nil bw v
pack_tiles-Took tile pack_tile m each zero bw (x ∷ xs) v h = Took-nil bw v
pack_tiles-Took tile pack_tile m each (suc rounds) bw (x ∷ xs) v h =
    let seg = take tile_len (x ∷ xs) in
    let rest = drop tile_len (x ∷ xs) in
    let p = each bw seg v (take-Below m tile_len (x ∷ xs) h) in
    Took-append bw (pack_tile bw seg) (pack_tiles pack_tile rounds (pack_tile bw seg) rest)
      (tile seg) (line_bits tile rounds rest) p
      (pack_tiles-Took tile pack_tile m each rounds (pack_tile bw seg) rest p.ready
        (drop-Below m tile_len (x ∷ xs) h))

-- The writer, being ready, appends the bits of the line's tiles, where the residuals are below
-- 2 ^ 15; it overflows only where they do not fit.
pub pack_line_tiled-Took :
    (bw : BitW) (u : List ℕ)
    → IsReady bw
    → Below (2 ^ 15) u
    → Took bw (line_bits tiled_bits (length u) u) (pack_line_tiled bw u)
unfolding pack_line_tiled
pack_line_tiled-Took bw u v h =
    pack_tiles-Took tiled_bits pack_tile_tiled (2 ^ 15) pack_tile_tiled-Took (length u) bw u v h
