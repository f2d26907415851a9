-- ===== src/Nlc/Pack/Sizes.antt =====
-- internal/groovy/nlc/codec.go: how many bits a line takes.
use native.Mathlib.Nat.{mul-le-mul_right}
use mi_ster_groovy_relay.Prelude.{
  ℕ, zero, suc, ◌+◌, ◌*◌, ◌/◌, ◌%◌, ◌^◌, ◌≤◌, ◌<◌, ◌≡◌, ap, inl, inr, true, List, [], ◌∷◌, arith,
  dec_lt, ltb, ltb→lt, lt→ltb, Bool-cases, length, length-append, take, drop, length-take,
  length-drop, ltb-false→le,
}
use mi_ster_groovy_relay.Prelude.Bits.{bits, length-bits, two_pow_pos, div-add-mod_two_pow}
use mi_ster_groovy_relay.Nlc.Pack.{
  tile_len, width_bits, rice_limit, rice_u_bits, tile_width, rice_k_loop, rice_k_for_tile, sum,
}
use mi_ster_groovy_relay.Nlc.Pack.Format.{
  fields, tiled_bits, rice_bits, rice_fields, rice_tile_bits, line_bits, Below, take-Below,
  drop-Below,
}
use mi_ster_groovy_relay.Nlc.Pack.Bounds.{tile_width_bounds}

length-fields : (w : ℕ) (vs : List ℕ) → length (fields w vs) ≡ w * length vs
length-fields w [] = omega arith
length-fields w (v ∷ vs) =
    grind (arith, length-append (bits w v) (fields w vs), length-bits w v, length-fields w vs)

tiled_bits_size :
    (seg : List ℕ) → Below (2 ^ 10) seg → length (tiled_bits seg) ≤ 4 + 10 * length seg
tiled_bits_size seg h =
    let w = tile_width 0 seg in
    let short = (tile_width_bounds 0 seg 10 (omega arith) (omega arith) h).0 in
    let most : w * length seg ≤ 10 * length seg = grind arith in
    omega (arith, most, length-append (bits width_bits w) (fields w seg), length-fields w seg)

-- The parameter is the first that brings the tile's sum below its length.
rice_k_loop_fits :
    (rounds t total k : ℕ)
    → total ≤ t * 2 ^ 10
    → k ≤ 10
    → k + rounds ≡ 15
    → (rice_k_loop rounds t total k ≤ 10) × (total ≤ t * 2 ^ rice_k_loop rounds t total k)
unfolding rice_k_loop
rice_k_loop_fits zero t total k h l e = absurd (omega arith)
rice_k_loop_fits (suc rounds) t total k h l e = elim (Bool-cases (ltb (t * 2 ^ k) total)) [
  | inr done ↦ rw done (l, ltb-false→le _ _ done)
  | inl more ↦
      let over = ltb→lt _ _ more in
      let less : k < 10 = (elim (dec_lt k 10) [
        | yes p ↦ p
        | no p ↦
            let k10 : k ≡ 10 = omega arith in
            absurd (omega (arith, h, over, ap (λ (j : ℕ). t * 2 ^ j) k10))
      ]) in
      let in_range : ltb k 15 ≡ true = lt→ltb _ _ (omega (arith, less)) in
      rw (more, in_range)
        (rice_k_loop_fits rounds t total (k + 1) h (omega (arith, less)) (omega (arith, e)))
]

quotients : ℕ → List ℕ → ℕ
quotients k [] = 0
quotients k (v ∷ vs) = v / 2 ^ k + quotients k vs

quotients-sum : (k : ℕ) (vs : List ℕ) → quotients k vs * 2 ^ k ≤ sum vs
unfolding quotients
quotients-sum k [] = omega arith
quotients-sum k (v ∷ vs) = grind (arith, quotients-sum k vs, div-add-mod_two_pow k v)

sum-le : (m : ℕ) (vs : List ℕ) → Below m vs → sum vs ≤ length vs * m
sum-le m [] h = omega arith
sum-le m (v ∷ vs) (h, hs) = grind (arith, sum-le m vs hs)

-- An escape is never longer than two bits for each unit of the quotient and the rest of the code.
rice_bits_size : (k u : ℕ) → k ≤ 15 → length (rice_bits k u) ≤ 2 * (u / 2 ^ k) + 1 + k
unfolding rice_bits
rice_bits_size k u h =
    let q = u / 2 ^ k in
    elim (Bool-cases (ltb q rice_limit)) [
      | inl small ↦ rw small (
          omega (
            arith,
            length-append (bits (q + 1) (2 ^ q)) (bits k (u % 2 ^ k)),
            length-bits (q + 1) (2 ^ q),
            length-bits k (u % 2 ^ k),
          ))
      | inr large ↦ rw large (
          omega (
            arith,
            ltb-false→le _ _ large,
            length-append (bits (rice_limit + 1) (2 ^ rice_limit)) (bits rice_u_bits u),
            length-bits (rice_limit + 1) (2 ^ rice_limit),
            length-bits rice_u_bits u,
          ))
    ]

rice_fields_size :
    (k : ℕ) (vs : List ℕ) → k ≤ 10 → length (rice_fields k vs) ≤ 2 * quotients k vs + 11 * length vs
unfolding quotients
rice_fields_size k [] h = omega arith
rice_fields_size k (v ∷ vs) h = omega (
  arith,
  rice_fields_size k vs h,
  rice_bits_size k v (omega arith),
  length-append (rice_bits k v) (rice_fields k vs),
)

rice_k_for_tile_fits :
    (seg : List ℕ)
    → Below (2 ^ 10) seg
    → (rice_k_for_tile seg ≤ 10) × (sum seg ≤ length seg * 2 ^ rice_k_for_tile seg)
unfolding rice_k_for_tile
rice_k_for_tile_fits seg h =
    rice_k_loop_fits 15 (length seg) (sum seg) 0 (sum-le (2 ^ 10) seg h) (omega arith) (omega arith)

le_of_mul-pos : (a b p : ℕ) → 0 < p → a * p ≤ b * p → a ≤ b
le_of_mul-pos a b p h le = elim (dec_lt b a) [
  | no q ↦ omega arith
  | yes q ↦
      let more : suc b * p ≤ a * p = mul-le-mul_right p q in
      let e : suc b * p ≡ b * p + p = grind arith in absurd (omega (arith, h, le, more, e))
]

quotients-le : (k : ℕ) (seg : List ℕ) → sum seg ≤ length seg * 2 ^ k → quotients k seg ≤ length seg
quotients-le k seg fits =
    le_of_mul-pos (quotients k seg) (length seg) (2 ^ k) (two_pow_pos k)
      (omega (arith, fits, quotients-sum k seg))

rice_tile_bits_size :
    (seg : List ℕ) → Below (2 ^ 10) seg → length (rice_tile_bits seg) ≤ 4 + 13 * length seg
rice_tile_bits_size seg h =
    let (short, fits) = rice_k_for_tile_fits seg h in
    let k = rice_k_for_tile seg in
    omega (
      arith,
      quotients-le k seg fits,
      rice_fields_size k seg short,
      length-append (bits width_bits k) (rice_fields k seg),
      length-bits width_bits k,
    )

line_bits_size :
    (tile : List ℕ → List ℕ)
    → ((seg : List ℕ) → Below (2 ^ 10) seg → length (tile seg) ≤ 4 + 13 * length seg)
    → (rounds : ℕ) (u : List ℕ) → Below (2 ^ 10) u
    → length (line_bits tile rounds u) ≤ 17 * length u
unfolding line_bits
line_bits_size tile each rounds [] h = omega arith
line_bits_size tile each zero (v ∷ vs) h = omega arith
line_bits_size tile each (suc rounds) (v ∷ vs) h =
    let seg = take tile_len (v ∷ vs) in
    let more = drop tile_len (v ∷ vs) in
    omega (
      arith,
      each seg (take-Below (2 ^ 10) tile_len (v ∷ vs) h),
      line_bits_size tile each rounds more (drop-Below (2 ^ 10) tile_len (v ∷ vs) h),
      length-append (tile seg) (line_bits tile rounds more),
      length-take tile_len (v ∷ vs),
      length-drop tile_len (v ∷ vs),
    )

pub tiled_line_size :
    (u : List ℕ) → Below (2 ^ 10) u → length (line_bits tiled_bits (length u) u) ≤ 17 * length u
tiled_line_size u h =
    line_bits_size tiled_bits (λ seg k. omega (arith, tiled_bits_size seg k)) (length u) u h

pub rice_line_size :
    (u : List ℕ) → Below (2 ^ 10) u → length (line_bits rice_tile_bits (length u) u) ≤ 17 * length u
rice_line_size u h = line_bits_size rice_tile_bits rice_tile_bits_size (length u) u h
