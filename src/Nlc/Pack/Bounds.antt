-- ===== src/Nlc/Pack/Bounds.antt =====
-- internal/groovy/nlc/codec.go: the width of a tile and its Rice parameter.
use mi_ster_groovy_relay.Prelude.{
  ℕ, zero, suc, ◌+◌, ◌/◌, ◌^◌, ◌≤◌, ◌<◌, ◌≡◌, inl, inr, List, [], ◌∷◌, arith, ltb, ◌==◌,
  if◌then◌else◌, ==_iff, Bool-cases, length,
}
use mi_ster_groovy_relay.Prelude.Bits.{two_pow_suc, two_pow_le}
use mi_ster_groovy_relay.Nlc.Pack.{
  bitlen_loop, bitlen, tile_width, rice_k_loop, rice_k_for_tile, sum,
}
use mi_ster_groovy_relay.Nlc.Pack.Format.{Below}

bitlen_loop-le : (rounds u m : ℕ) → u < 2 ^ m → bitlen_loop rounds u ≤ m
unfolding bitlen_loop
bitlen_loop-le zero u m h = omega arith
bitlen_loop-le (suc rounds) u zero h = ground arith
bitlen_loop-le (suc rounds) u (suc m) h =
    ground (arith, bitlen_loop-le rounds (u / 2) m (omega (arith, two_pow_suc m)))

pub bitlen-le : (u m : ℕ) → u < 2 ^ m → bitlen u ≤ m
unfolding bitlen
bitlen-le u m h = bitlen_loop-le 32 u m h

lt-bitlen_loop : (rounds u : ℕ) → u < 2 ^ rounds → u < 2 ^ bitlen_loop rounds u
unfolding bitlen_loop
lt-bitlen_loop zero u h = h
lt-bitlen_loop (suc rounds) u h = elim (Bool-cases (u == 0)) [
  | inl z ↦ rw z (let e : u ≡ 0 = (==_iff u 0).0 z in omega arith)
  | inr n ↦
      let r = lt-bitlen_loop rounds (u / 2) (omega (arith, two_pow_suc rounds)) in
      let e : bitlen_loop rounds (u / 2) + 1 ≡ suc (bitlen_loop rounds (u / 2)) = omega arith in
      rw (n, e) (omega (arith, r, two_pow_suc (bitlen_loop rounds (u / 2))))
]

pub lt-bitlen : (u : ℕ) → u < 2 ^ 32 → u < 2 ^ bitlen u
unfolding bitlen
lt-bitlen u h = lt-bitlen_loop 32 u h

pub tile_width_bounds :
    (w : ℕ) (vs : List ℕ) (m : ℕ)
    → m ≤ 32
    → w ≤ m
    → Below (2 ^ m) vs
    → (tile_width w vs ≤ m) × (w ≤ tile_width w vs) × Below (2 ^ tile_width w vs) vs
unfolding tile_width
tile_width_bounds w [] m l h b = (h, omega arith, tt)
tile_width_bounds w (v ∷ vs) m l h (b, bs) =
    let w' = (if ltb w (bitlen v) then bitlen v else w) in
    let short = bitlen-le v m b in
    let holds : v < 2 ^ bitlen v = lt-bitlen v (omega (arith, b, two_pow_le m 32 l)) in
    let below : w' ≤ m = ground (arith, short) in
    let above : (w ≤ w') × (bitlen v ≤ w') = (ground arith, ground arith) in
    let (t, u, r) = tile_width_bounds w' vs m l below bs in
    (
      t,
      omega (arith, above, u),
      (omega (arith, holds, two_pow_le (bitlen v) (tile_width w' vs) (omega (arith, above, u))), r),
    )

-- The smallest parameter that the loop accepts, or the last.
rice_k_loop_lem :
    (rounds t total k : ℕ)
    → (rice_k_loop rounds t total k ≤ rounds + k) × (k ≤ rice_k_loop rounds t total k)
unfolding rice_k_loop
rice_k_loop_lem zero t total k = omega arith
rice_k_loop_lem (suc rounds) t total k = ground (arith, rice_k_loop_lem rounds t total (k + 1))

pub rice_k-le : (u : List ℕ) → rice_k_for_tile u ≤ 15
unfolding rice_k_for_tile
rice_k-le u = omega (arith, rice_k_loop_lem 15 (length u) (sum u) 0)
