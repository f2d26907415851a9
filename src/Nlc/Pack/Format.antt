-- ===== src/Nlc/Pack/Format.antt =====
-- internal/groovy/nlc/codec.go: the bits of a packed line, independently of how they are written.
use mi_ster_groovy_relay.Prelude.{
  ℕ, zero, suc, ◌+◌, ◌/◌, ◌%◌, ◌^◌, ◌<◌, List, [], ◌∷◌, ◌++◌, ltb, if◌then◌else◌, take, drop,
}
use mi_ster_groovy_relay.Prelude.Bits.{bits}
use mi_ster_groovy_relay.Nlc.Pack.{
  tile_len, width_bits, rice_limit, rice_u_bits, tile_width, rice_k_for_tile,
}

abbrev pub fields : ℕ → List ℕ → List ℕ
fields w [] = []
fields w (v ∷ vs) = bits w v ++ fields w vs

abbrev pub tiled_bits : List ℕ → List ℕ
tiled_bits seg = bits width_bits (tile_width 0 seg) ++ fields (tile_width 0 seg) seg

-- A value in Rice code: its quotient in unary and its remainder, or the escape and the value.
unfoldable pub rice_bits : ℕ → ℕ → List ℕ
rice_bits k u =
    let q = u / 2 ^ k in
    if ltb q rice_limit
    then bits (q + 1) (2 ^ q) ++ bits k (u % 2 ^ k)
    else bits (rice_limit + 1) (2 ^ rice_limit) ++ bits rice_u_bits u

abbrev pub rice_fields : ℕ → List ℕ → List ℕ
rice_fields k [] = []
rice_fields k (v ∷ vs) = rice_bits k v ++ rice_fields k vs

abbrev pub rice_tile_bits : List ℕ → List ℕ
rice_tile_bits seg = bits width_bits (rice_k_for_tile seg) ++ rice_fields (rice_k_for_tile seg) seg

-- A line, given the format of a tile.
unfoldable pub line_bits : (List ℕ → List ℕ) → ℕ → List ℕ → List ℕ
line_bits tile rounds [] = []
line_bits tile zero (v ∷ vs) = []
line_bits tile (suc rounds) (v ∷ vs) =
    tile (take tile_len (v ∷ vs)) ++ line_bits tile rounds (drop tile_len (v ∷ vs))

abbrev pub Below : ℕ → List ℕ → Type 0
Below m [] = Unit
Below m (v ∷ vs) = (v < m) × Below m vs

pub take-Below : (m n : ℕ) (vs : List ℕ) → Below m vs → Below m (take n vs)
take-Below m zero vs h = tt
take-Below m (suc n) [] h = tt
take-Below m (suc n) (v ∷ vs) (h, hs) = (h, take-Below m n vs hs)

pub drop-Below : (m n : ℕ) (vs : List ℕ) → Below m vs → Below m (drop n vs)
drop-Below m zero vs h = h
drop-Below m (suc n) [] h = tt
drop-Below m (suc n) (v ∷ vs) (h, hs) = drop-Below m n vs hs
