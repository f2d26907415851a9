-- ===== src/Nlc/Pack/RiceRead.antt =====
-- internal/groovy/nlc/codec.go: the Rice unpacking of a line.
use native.Mathlib.Nat.{mod-lt, mod-eq_of_lt}
use mi_ster_groovy_relay.Nlc.Pack.{
  bit_or, rice_limit, rice_u_bits, width_bits, rice_k_for_tile, zeros_loop, rice_get, rice_get_all,
  unpack_tile_rice, unpack_line_rice,
}
use mi_ster_groovy_relay.Nlc.Pack.Format.{rice_bits, rice_fields, rice_tile_bits, line_bits, Below}
use mi_ster_groovy_relay.Nlc.Pack.Bounds.{rice_k-le}
use mi_ster_groovy_relay.Nlc.Pack.Read.{GaveAll, unpack_tiles-GaveAll}
use mi_ster_groovy_relay.Prelude.{
  ℕ, zero, suc, ◌+◌, ◌*◌, ◌/◌, ◌%◌, ◌^◌, ◌≤◌, ◌<◌, ◌≡◌, refl, ap, ap₂, ◌∙◌, inl, inr, true, false,
  List, [], ◌∷◌, ◌++◌, append_assoc, arith, ltb, if◌then◌else◌, ltb→lt, lt→ltb, Bool-cases, length,
  replicate, ltb-false→le,
}
use mi_ster_groovy_relay.Prelude.Bits.{
  bits, bits-unary, two_pow_pos, shift-bit_or, div-add-mod_two_pow,
}
use mi_ster_groovy_relay.Nlc.BitIo.{BitR, get}
use mi_ster_groovy_relay.Nlc.BitIo.View.{remaining}
use mi_ster_groovy_relay.Nlc.BitIo.Read.{IsLoaded, Gave, get-Gave}

-- A unary number that is shorter than the limit: its one is read too.
zeros_loop-one :
    (q rounds : ℕ) (r : BitR) (rest : List ℕ)
    → q < rounds
    → IsLoaded r
    → remaining r ≡ (replicate q 0 ++ (1 ∷ [])) ++ rest
    → Gave q rest (zeros_loop rounds r)
unfolding zeros_loop
zeros_loop-one q zero r rest h l e = absurd (omega arith)
zeros_loop-one zero (suc rounds) r rest h l e =
    let g = get-Gave r 1 1 rest l (omega arith) (omega arith) e in
    rw (g.value) (record { value = refl; loaded = g.loaded; behind = g.behind })
zeros_loop-one (suc q) (suc rounds) r rest h l e =
    let g = get-Gave r 1 0 ((replicate q 0 ++ (1 ∷ [])) ++ rest) l (omega arith) (omega arith) e in
    let gs = zeros_loop-one q rounds (get r 1).1 rest (omega arith) g.loaded g.behind in
    rw (g.value)
      (record { value = omega (arith, gs.value); loaded = gs.loaded; behind = gs.behind })

-- As many zeros as the limit: no bit more is read.
zeros_loop-all :
    (rounds : ℕ) (r : BitR) (rest : List ℕ)
    → IsLoaded r
    → remaining r ≡ replicate rounds 0 ++ rest
    → Gave rounds rest (zeros_loop rounds r)
unfolding zeros_loop
zeros_loop-all zero r rest l e = record { value = refl; loaded = l; behind = e }
zeros_loop-all (suc rounds) r rest l e =
    let g = get-Gave r 1 0 (replicate rounds 0 ++ rest) l (omega arith) (omega arith) e in
    let gs = zeros_loop-all rounds (get r 1).1 rest g.loaded g.behind in
    rw (g.value)
      (record { value = omega (arith, gs.value); loaded = gs.loaded; behind = gs.behind })

remainder-Gave :
    (r : BitR) (k v : ℕ) (rest : List ℕ)
    → IsLoaded r
    → k ≤ 15
    → v < 2 ^ k
    → remaining r ≡ bits k v ++ rest
    → Gave v rest (if ltb 0 k then get r k else (0, r))
remainder-Gave r zero v rest l h f e = record { value = omega arith; loaded = l; behind = e }
remainder-Gave r (suc k) v rest l h f e =
    let p : ltb 0 (suc k) ≡ true = lt→ltb _ _ (omega arith) in
    rw p (get-Gave r (suc k) v rest l (omega arith) f e)

module _ (r : BitR) (k u : ℕ) (rest : List ℕ) (l : IsLoaded r) (h : k ≤ 15) (f : u < 2 ^ 12) where
  abbrev q : ℕ
  q = u / 2 ^ k

  abbrev low : ℕ
  low = u % 2 ^ k

  joined : bit_or (q * 2 ^ k % 2 ^ 32) low ≡ u
  joined =
      let whole : low + q * 2 ^ k ≡ u = div-add-mod_two_pow k u in
      rw (mod-eq_of_lt {n = q * 2 ^ k} {m = 2 ^ 32} (omega (arith, whole, f)))
        (shift-bit_or k low q (mod-lt u (two_pow_pos k)) ∙ whole)

  rice_get-short :
      q < rice_limit
      → remaining r ≡ (bits (q + 1) (2 ^ q) ++ bits k low) ++ rest
      → Gave u rest (rice_get r k)
  unfolding rice_get
  rice_get-short small e =
      let unary = zeros_loop-one q rice_limit r (bits k low ++ rest) small l (
        e
        ∙ append_assoc (bits (q + 1) (2 ^ q)) (bits k low) rest
        ∙ ap (λ t. t ++ (bits k low ++ rest)) (bits-unary q)) in
      let g =
        remainder-Gave (zeros_loop rice_limit r).1 k low rest unary.loaded h
          (mod-lt u (two_pow_pos k)) unary.behind in
      rw (unary.value, lt→ltb _ _ small, g.value)
        (record { value = joined; loaded = g.loaded; behind = g.behind })

  rice_get-long :
      rice_limit ≤ q
      → remaining r ≡ (bits (rice_limit + 1) (2 ^ rice_limit) ++ bits rice_u_bits u) ++ rest
      → Gave u rest (rice_get r k)
  unfolding rice_get
  rice_get-long large e =
      let unary = zeros_loop-all rice_limit r ((1 ∷ []) ++ (bits rice_u_bits u ++ rest)) l (
        e
        ∙ append_assoc (bits (rice_limit + 1) (2 ^ rice_limit)) (bits rice_u_bits u) rest
        ∙ ap (λ t. t ++ (bits rice_u_bits u ++ rest)) (bits-unary rice_limit)
        ∙ append_assoc (replicate rice_limit 0) (1 ∷ []) (bits rice_u_bits u ++ rest)) in
      let br = (zeros_loop rice_limit r).1 in
      let one =
        get-Gave br 1 1 (bits rice_u_bits u ++ rest) unary.loaded (omega arith) (omega arith)
          unary.behind in
      let g = get-Gave (get br 1).1 rice_u_bits u rest one.loaded (omega arith) f one.behind in
      rw (unary.value) g

rice_bits-short :
    (k u : ℕ)
    → ltb (u / 2 ^ k) rice_limit ≡ true
    → rice_bits k u ≡ bits (u / 2 ^ k + 1) (2 ^ (u / 2 ^ k)) ++ bits k (u % 2 ^ k)
unfolding rice_bits
rice_bits-short k u h = rw h refl

rice_bits-long :
    (k u : ℕ)
    → ltb (u / 2 ^ k) rice_limit ≡ false
    → rice_bits k u ≡ bits (rice_limit + 1) (2 ^ rice_limit) ++ bits rice_u_bits u
unfolding rice_bits
rice_bits-long k u h = rw h refl

rice_get-Gave :
    (r : BitR) (k u : ℕ) (rest : List ℕ)
    → IsLoaded r
    → k ≤ 15
    → u < 2 ^ 12
    → remaining r ≡ rice_bits k u ++ rest
    → Gave u rest (rice_get r k)
rice_get-Gave r k u rest l h f e = elim (Bool-cases (ltb (u / 2 ^ k) rice_limit)) [
  | inl small ↦
      rice_get-short r k u rest l h f (ltb→lt _ _ small)
        (e ∙ ap (λ t. t ++ rest) (rice_bits-short k u small))
  | inr large ↦
      rice_get-long r k u rest l h f (ltb-false→le _ _ large)
        (e ∙ ap (λ t. t ++ rest) (rice_bits-long k u large))
]

rice_get_all-GaveAll :
    (k : ℕ) (vs : List ℕ) (r : BitR) (rest : List ℕ)
    → IsLoaded r
    → k ≤ 15
    → Below (2 ^ 12) vs
    → remaining r ≡ rice_fields k vs ++ rest
    → GaveAll vs rest (rice_get_all (length vs) r k)
unfolding rice_get_all
rice_get_all-GaveAll k [] r rest l h b e = record { values = refl; loaded = l; behind = e }
rice_get_all-GaveAll k (v ∷ vs) r rest l h (b, bs) e =
    let g =
      rice_get-Gave r k v (rice_fields k vs ++ rest) l h b
        (e ∙ append_assoc (rice_bits k v) (rice_fields k vs) rest) in
    let gs = rice_get_all-GaveAll k vs (rice_get r k).1 rest g.loaded h bs g.behind in
    record { values = ap₂ ◌∷◌ g.value gs.values; loaded = gs.loaded; behind = gs.behind }

unpack_tile_rice-GaveAll :
    (seg : List ℕ) (r : BitR) (rest : List ℕ)
    → IsLoaded r
    → Below (2 ^ 12) seg
    → remaining r ≡ rice_tile_bits seg ++ rest
    → GaveAll seg rest (unpack_tile_rice r (length seg))
unfolding unpack_tile_rice
unpack_tile_rice-GaveAll seg r rest l b e =
    let k = rice_k_for_tile seg in
    let short = rice_k-le seg in
    let g =
      get-Gave r width_bits k (rice_fields k seg ++ rest) l (omega arith) (omega (arith, short))
        (e ∙ append_assoc (bits width_bits k) (rice_fields k seg) rest) in
    rw (g.value) (rice_get_all-GaveAll k seg (get r width_bits).1 rest g.loaded short b g.behind)

-- A reader whose bits begin with those of a line in Rice code gives its residuals, where they are
-- below 2 ^ 12.
pub unpack_line_rice-GaveAll :
    (u : List ℕ) (r : BitR) (rest : List ℕ)
    → IsLoaded r
    → Below (2 ^ 12) u
    → remaining r ≡ line_bits rice_tile_bits (length u) u ++ rest
    → GaveAll u rest (unpack_line_rice r (length u))
unfolding unpack_line_rice
unpack_line_rice-GaveAll u r rest l b e =
    unpack_tiles-GaveAll rice_tile_bits unpack_tile_rice (2 ^ 12) unpack_tile_rice-GaveAll
      (length u) u r rest (omega arith) l b e
