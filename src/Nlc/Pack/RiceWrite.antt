-- ===== src/Nlc/Pack/RiceWrite.antt =====
-- internal/groovy/nlc/codec.go: the bits that the Rice packing of a line appends.
use native.Mathlib.Nat.{mod-eq_of_lt}
use mi_ster_groovy_relay.Prelude.{
  ℕ, zero, suc, ◌+◌, ◌*◌, ◌/◌, ◌%◌, ◌^◌, ◌≤◌, ◌≡◌, inl, inr, true, List, [], ◌∷◌, arith, ltb,
  if◌then◌else◌, ltb→lt, lt→ltb, Bool-cases, length,
}
use mi_ster_groovy_relay.Prelude.Bits.{bits}
use mi_ster_groovy_relay.Nlc.BitIo.{BitW, put}
use mi_ster_groovy_relay.Nlc.BitIo.View.{IsReady}
use mi_ster_groovy_relay.Nlc.BitIo.Write.{Took, Took-nil, Took-append, put-Took}
use mi_ster_groovy_relay.Nlc.Pack.{
  rice_limit, rice_u_bits, width_bits, rice_k_for_tile, rice_put, rice_put_all, pack_tile_rice,
  pack_line_rice,
}
use mi_ster_groovy_relay.Nlc.Pack.Format.{rice_bits, rice_fields, rice_tile_bits, line_bits, Below}
use mi_ster_groovy_relay.Nlc.Pack.Bounds.{rice_k-le}
use mi_ster_groovy_relay.Nlc.Pack.Write.{pack_tiles-Took}

-- The remainder, which is written only where it has bits.
remainder-Took :
    (bw : BitW) (v k : ℕ)
    → IsReady bw
    → k ≤ 15
    → Took bw (bits k v) (if ltb 0 k then put bw v k else bw)
remainder-Took bw v zero r h = Took-nil bw r
remainder-Took bw v (suc k) r h =
    let e : ltb 0 (suc k) ≡ true = lt→ltb _ _ (omega arith) in
    rw e (put-Took bw v (suc k) r (omega arith))

rice_put-Took :
    (bw : BitW) (u k : ℕ) → IsReady bw → k ≤ 15 → Took bw (rice_bits k u) (rice_put bw u k)
unfolding rice_put rice_bits
rice_put-Took bw u k r h =
    let q = u / 2 ^ k in
    let e : 1 * 2 ^ q ≡ 2 ^ q = omega arith in
    elim (Bool-cases (ltb q rice_limit)) [
      | inl small ↦
          let below = ltb→lt _ _ small in
          let p = put-Took bw (2 ^ q) (q + 1) r (omega (arith, below)) in
          rw (small, e)
            (Took-append bw (put bw (2 ^ q) (q + 1)) _ (bits (q + 1) (2 ^ q)) (bits k (u % 2 ^ k)) p
              (remainder-Took (put bw (2 ^ q) (q + 1)) (u % 2 ^ k) k p.ready h))
      | inr large ↦
          let p = put-Took bw (1 * 2 ^ rice_limit) (rice_limit + 1) r (omega arith) in
          rw large (
            Took-append bw (put bw (1 * 2 ^ rice_limit) (rice_limit + 1)) _
              (bits (rice_limit + 1) (2 ^ rice_limit)) (bits rice_u_bits u) p
              (put-Took (put bw (1 * 2 ^ rice_limit) (rice_limit + 1)) u rice_u_bits p.ready
                (omega arith)))
    ]

rice_put_all-Took :
    (bw : BitW) (k : ℕ) (vs : List ℕ)
    → IsReady bw
    → k ≤ 15
    → Took bw (rice_fields k vs) (rice_put_all bw k vs)
unfolding rice_put_all
rice_put_all-Took bw k [] r h = Took-nil bw r
rice_put_all-Took bw k (v ∷ vs) r h =
    let p = rice_put-Took bw v k r h in
    Took-append bw (rice_put bw v k) (rice_put_all (rice_put bw v k) k vs) (rice_bits k v)
      (rice_fields k vs) p (rice_put_all-Took (rice_put bw v k) k vs p.ready h)

pack_tile_rice-Took :
    (m : ℕ) (bw : BitW) (seg : List ℕ)
    → IsReady bw
    → Below m seg
    → Took bw (rice_tile_bits seg) (pack_tile_rice bw seg)
unfolding pack_tile_rice
pack_tile_rice-Took m bw seg r h =
    let k = rice_k_for_tile seg in
    let short = rice_k-le seg in
    let e : k % 2 ^ 32 ≡ k = mod-eq_of_lt (omega (arith, short)) in
    let p = put-Took bw k width_bits r (omega arith) in
    rw e (
      Took-append bw (put bw k width_bits) (rice_put_all (put bw k width_bits) k seg)
        (bits width_bits k) (rice_fields k seg) p
        (rice_put_all-Took (put bw k width_bits) k seg p.ready short))

pub pack_line_rice-Took :
    (bw : BitW) (u : List ℕ) (m : ℕ)
    → IsReady bw
    → Below m u
    → Took bw (line_bits rice_tile_bits (length u) u) (pack_line_rice bw u)
unfolding pack_line_rice
pack_line_rice-Took bw u m r h =
    pack_tiles-Took rice_tile_bits pack_tile_rice m (pack_tile_rice-Took m) (length u) bw u r h
