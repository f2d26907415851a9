-- ===== src/Nlc/Pack.antt =====
-- internal/groovy/nlc/codec.go: the two packings of a line's residuals, tile by tile.
pub mod Format
pub mod Bounds
pub mod Write
pub mod Read
pub mod RiceWrite
pub mod RiceRead
pub mod RoundTrip
pub mod Sizes
pub mod Shape
use Prim.Native.Nat.{bit_or}
use mi_ster_groovy_relay.Prelude.{
  ℕ, zero, suc, ◌+◌, ◌-◌, ◌*◌, ◌/◌, ◌%◌, ◌^◌, ◌&&◌, List, [], ◌∷◌, ◌++◌, ltb, ◌==◌, if◌then◌else◌,
  length, take, drop,
}
use mi_ster_groovy_relay.Nlc.BitIo.{BitW, put, BitR, get}

abbrev pub tile_len : ℕ
tile_len = 16

abbrev pub width_bits : ℕ
width_bits = 4

abbrev pub rice_limit : ℕ
rice_limit = 20

abbrev pub rice_u_bits : ℕ
rice_u_bits = 12

-- `bits.Len32`: the number of bits of a uint32 up to its highest one.
bitlen_loop : ℕ → ℕ → ℕ
bitlen_loop zero u = 0
bitlen_loop (suc rounds) u = let rest = bitlen_loop rounds (u / 2) in if u == 0 then 0 else rest + 1

unfoldable pub bitlen : ℕ → ℕ
unfolding bitlen_loop
bitlen u = bitlen_loop 32 u

-- The width of a tile: its longest value's.
unfoldable pub tile_width : ℕ → List ℕ → ℕ
tile_width w [] = w
tile_width w (v ∷ vs) = tile_width (if ltb w (bitlen v) then bitlen v else w) vs

pub put_all : BitW → ℕ → List ℕ → BitW
put_all bw w [] = bw
put_all bw w (v ∷ vs) = put_all (put bw v w) w vs

unfoldable pub pack_tile_tiled : BitW → List ℕ → BitW
unfolding put_all
pack_tile_tiled bw seg = let w = tile_width 0 seg in put_all (put bw (w % 2 ^ 32) width_bits) w seg

-- The loop over the tiles of a line, the last of which may be shorter. Each round takes a value at
-- least, so as many rounds as there are values are enough.
pub pack_tiles : (BitW → List ℕ → BitW) → ℕ → BitW → List ℕ → BitW
pack_tiles pack_tile rounds bw [] = bw
pack_tiles pack_tile zero bw (v ∷ vs) = bw
pack_tiles pack_tile (suc rounds) bw (v ∷ vs) =
    pack_tiles pack_tile rounds (pack_tile bw (take tile_len (v ∷ vs))) (drop tile_len (v ∷ vs))

unfoldable pub pack_line_tiled : BitW → List ℕ → BitW
unfolding pack_tiles pack_tile_tiled
pack_line_tiled bw u = pack_tiles pack_tile_tiled (length u) bw u

-- `n` values of `w` bits.
pub get_all : ℕ → BitR → ℕ → List ℕ × BitR
get_all zero br w = ([], br)
get_all (suc n) br w = let (v, br') = get br w in let (vs, br'') = get_all n br' w in (v ∷ vs, br'')

unfoldable pub unpack_tile_tiled : BitR → ℕ → List ℕ × BitR
unfolding get_all
unpack_tile_tiled br n = let (w, br') = get br width_bits in get_all n br' w

-- The loop over the tiles of a line of `left` values.
pub unpack_tiles : (BitR → ℕ → List ℕ × BitR) → ℕ → BitR → ℕ → List ℕ × BitR
unpack_tiles unpack_tile zero br left = ([], br)
unpack_tiles unpack_tile (suc rounds) br left =
    let n = (if ltb left tile_len then left else tile_len) in
    let (seg, br') = unpack_tile br n in
    let (rest, br'') = unpack_tiles unpack_tile rounds br' (left - n) in
    if left == 0 then ([], br) else (seg ++ rest, br'')

unfoldable pub unpack_line_tiled : BitR → ℕ → List ℕ × BitR
unfolding unpack_tiles unpack_tile_tiled
unpack_line_tiled br w = unpack_tiles unpack_tile_tiled w br w

-- The sum of a tile is below 2 ^ 36 and `T << k` below 2 ^ 20: neither wraps.
abbrev pub sum : List ℕ → ℕ
sum [] = 0
sum (v ∷ vs) = v + sum vs

rice_k_loop : ℕ → ℕ → ℕ → ℕ → ℕ
rice_k_loop zero t total k = k
rice_k_loop (suc rounds) t total k =
    let rest = rice_k_loop rounds t total (k + 1) in
    if ltb (t * 2 ^ k) total && ltb k 15 then rest else k

unfoldable pub rice_k_for_tile : List ℕ → ℕ
unfolding rice_k_loop
rice_k_for_tile u = rice_k_loop 15 (length u) (sum u) 0

unfoldable pub rice_put : BitW → ℕ → ℕ → BitW
rice_put bw u k =
    let q = u / 2 ^ k in
    let bw₁ = put bw (1 * 2 ^ q) (q + 1) in
    let bw₂ = put bw (1 * 2 ^ rice_limit) (rice_limit + 1) in
    if ltb q rice_limit
    then (if ltb 0 k then put bw₁ (u % 2 ^ k) k else bw₁)
    else put bw₂ u rice_u_bits

pub rice_put_all : BitW → ℕ → List ℕ → BitW
rice_put_all bw k [] = bw
rice_put_all bw k (v ∷ vs) = rice_put_all (rice_put bw v k) k vs

unfoldable pub pack_tile_rice : BitW → List ℕ → BitW
unfolding rice_put_all
pack_tile_rice bw seg =
    let k = rice_k_for_tile seg in rice_put_all (put bw (k % 2 ^ 32) width_bits) k seg

unfoldable pub pack_line_rice : BitW → List ℕ → BitW
unfolding pack_tiles pack_tile_rice
pack_line_rice bw u = pack_tiles pack_tile_rice (length u) bw u

-- `for zeros < riceLimit && br.get(1) == 0 { zeros++ }`, with the rounds that are left.
pub zeros_loop : ℕ → BitR → ℕ × BitR
zeros_loop zero br = (0, br)
zeros_loop (suc rounds) br =
    let (b, br') = get br 1 in
    let (zeros, br'') = zeros_loop rounds br' in if b == 0 then (zeros + 1, br'') else (0, br')

unfoldable pub rice_get : BitR → ℕ → ℕ × BitR
unfolding zeros_loop
rice_get br k =
    let (zeros, br') = zeros_loop rice_limit br in
    let (r, br'') = (if ltb 0 k then get br' k else (0, br')) in
    let (stop, br₃) = get br' 1 in
    if ltb zeros rice_limit then (bit_or (zeros * 2 ^ k % 2 ^ 32) r, br'') else get br₃ rice_u_bits

pub rice_get_all : ℕ → BitR → ℕ → List ℕ × BitR
rice_get_all zero br k = ([], br)
rice_get_all (suc n) br k =
    let (v, br') = rice_get br k in let (vs, br'') = rice_get_all n br' k in (v ∷ vs, br'')

unfoldable pub unpack_tile_rice : BitR → ℕ → List ℕ × BitR
unfolding rice_get_all
unpack_tile_rice br n = let (k, br') = get br width_bits in rice_get_all n br' k

unfoldable pub unpack_line_rice : BitR → ℕ → List ℕ × BitR
unfolding unpack_tiles unpack_tile_rice
unpack_line_rice br w = unpack_tiles unpack_tile_rice w br w
