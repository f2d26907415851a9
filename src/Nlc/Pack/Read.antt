-- ===== src/Nlc/Pack/Read.antt =====
-- internal/groovy/nlc/codec.go: the tiled unpacking of a line.
use mathlib.Core.Path.{subst}
use mi_ster_groovy_relay.Prelude.{
  ℕ, zero, suc, ◌-◌, ◌^◌, ◌≤◌, ◌<◌, ◌≡◌, refl, sym, ap₂, ◌∙◌, false, List, [], ◌∷◌, ◌++◌,
  append_assoc, arith, ltb, ◌==◌, if◌then◌else◌, length, take, drop, take-append-drop, length-take,
  length-drop,
}
use mi_ster_groovy_relay.Prelude.Bits.{bits}
use mi_ster_groovy_relay.Nlc.BitIo.{BitR, get}
use mi_ster_groovy_relay.Nlc.BitIo.View.{remaining}
use mi_ster_groovy_relay.Nlc.BitIo.Read.{IsLoaded, get-Gave}
use mi_ster_groovy_relay.Nlc.Pack.{
  tile_len, width_bits, tile_width, get_all, unpack_tile_tiled, unpack_tiles, unpack_line_tiled,
}
use mi_ster_groovy_relay.Nlc.Pack.Format.{
  fields, tiled_bits, line_bits, Below, take-Below, drop-Below,
}
use mi_ster_groovy_relay.Nlc.Pack.Bounds.{tile_width_bounds}

-- A reader gave the values `vs`, and goes on behind them.
pub record GaveAll (vs : List ℕ) (rest : List ℕ) (out : List ℕ × BitR) : Type 0 where
  pub values : out.0 ≡ vs
  pub loaded : IsLoaded out.1
  pub behind : remaining out.1 ≡ rest

get_all-GaveAll :
    (w : ℕ) (vs : List ℕ) (r : BitR) (rest : List ℕ)
    → IsLoaded r
    → w ≤ 24
    → Below (2 ^ w) vs
    → remaining r ≡ fields w vs ++ rest
    → GaveAll vs rest (get_all (length vs) r w)
unfolding get_all
get_all-GaveAll w [] r rest l h b e = record { values = refl; loaded = l; behind = e }
get_all-GaveAll w (v ∷ vs) r rest l h (b, bs) e =
    let g =
      get-Gave r w v (fields w vs ++ rest) l h b (e ∙ append_assoc (bits w v) (fields w vs) rest) in
    let gs = get_all-GaveAll w vs (get r w).1 rest g.loaded h bs g.behind in
    record { values = ap₂ ◌∷◌ g.value gs.values; loaded = gs.loaded; behind = gs.behind }

unpack_tile_tiled-GaveAll :
    (seg : List ℕ) (r : BitR) (rest : List ℕ)
    → IsLoaded r
    → Below (2 ^ 15) seg
    → remaining r ≡ tiled_bits seg ++ rest
    → GaveAll seg rest (unpack_tile_tiled r (length seg))
unfolding unpack_tile_tiled
unpack_tile_tiled-GaveAll seg r rest l b e =
    let w = tile_width 0 seg in
    let bounds = tile_width_bounds 0 seg 15 (omega arith) (omega arith) b in
    let g =
      get-Gave r width_bits w (fields w seg ++ rest) l (omega arith) (omega (arith, bounds.0))
        (e ∙ append_assoc (bits width_bits w) (fields w seg) rest) in
    rw (g.value) (
      get_all-GaveAll w seg (get r width_bits).1 rest g.loaded (omega (arith, bounds.0)) bounds.2
        g.behind)

-- A round of the loop: a tile of `n` values, then the `k` that are left.
unpack_step :
    (unpack_tile : BitR → ℕ → List ℕ × BitR) (rounds : ℕ) (r : BitR) (left n k : ℕ)
    → 0 < left
    → (if ltb left tile_len then left else tile_len) ≡ n
    → left - n ≡ k
    → let (seg, r') = unpack_tile r n in
      let (rest, r'') = unpack_tiles unpack_tile rounds r' k in
      unpack_tiles unpack_tile (suc rounds) r left ≡ (seg ++ rest, r'')
unfolding unpack_tiles
unpack_step unpack_tile rounds r left n k h p q =
    let more : (left == 0) ≡ false = ground arith in rw (more, p, q) refl

module _ (tile : List ℕ → List ℕ) (unpack_tile : BitR → ℕ → List ℕ × BitR) (m : ℕ)
    (each : (seg : List ℕ) (r : BitR) (rest : List ℕ)
      → IsLoaded r
      → Below m seg
      → remaining r ≡ tile seg ++ rest
      → GaveAll seg rest (unpack_tile r (length seg))) where
  -- A line is read back in `rounds` rounds.
  abbrev pub Reads : ℕ → Type 0
  Reads rounds =
      (u : List ℕ) (r : BitR) (rest : List ℕ)
      → length u ≤ rounds
      → IsLoaded r
      → Below m u
      → remaining r ≡ line_bits tile rounds u ++ rest
      → GaveAll u rest (unpack_tiles unpack_tile rounds r (length u))

  unpack_round :
      (rounds : ℕ)
      → Reads rounds
      → (u : List ℕ) (r : BitR) (rest : List ℕ) → 0 < length u
      → length u ≤ suc rounds
      → IsLoaded r
      → Below m u
      → remaining r ≡ (tile (take tile_len u) ++ line_bits tile rounds (drop tile_len u)) ++ rest
      → GaveAll u rest (unpack_tiles unpack_tile (suc rounds) r (length u))
  unpack_round rounds reads u r rest some_left h l b e =
      let seg = take tile_len u in
      let more = drop tile_len u in
      let g =
        each seg r (line_bits tile rounds more ++ rest) l (take-Below m tile_len u b)
          (e ∙ append_assoc (tile seg) (line_bits tile rounds more) rest) in
      let gs =
        reads more (unpack_tile r (length seg)).1 rest
          (omega (arith, h, some_left, length-drop tile_len u)) g.loaded (drop-Below m tile_len u b)
          g.behind in
      let step =
        unpack_step unpack_tile rounds r (length u) (length seg) (length more) some_left
          (ground (arith, length-take tile_len u))
          (omega (arith, length-take tile_len u, length-drop tile_len u)) in
      subst (λ out. GaveAll u rest out) (sym step)
        (record {
          values = ap₂ ◌++◌ g.values gs.values ∙ take-append-drop tile_len u;
          loaded = gs.loaded;
          behind = gs.behind;
        })

  -- Where every tile is read back, so is the line.
  pub unpack_tiles-GaveAll : (rounds : ℕ) → Reads rounds
  unfolding unpack_tiles line_bits
  unpack_tiles-GaveAll zero [] r rest h l b e = record { values = refl; loaded = l; behind = e }
  unpack_tiles-GaveAll (suc rounds) [] r rest h l b e = record {
    values = refl;
    loaded = l;
    behind = e;
  }
  unpack_tiles-GaveAll zero (v ∷ vs) r rest h l b e = absurd (omega arith)
  unpack_tiles-GaveAll (suc rounds) (v ∷ vs) r rest h l b e =
      unpack_round rounds (unpack_tiles-GaveAll rounds) (v ∷ vs) r rest (omega arith) h l b e

-- A reader whose bits begin with those of a line gives its residuals, where they are below 2 ^ 15.
pub unpack_line_tiled-GaveAll :
    (u : List ℕ) (r : BitR) (rest : List ℕ)
    → IsLoaded r
    → Below (2 ^ 15) u
    → remaining r ≡ line_bits tiled_bits (length u) u ++ rest
    → GaveAll u rest (unpack_line_tiled r (length u))
unfolding unpack_line_tiled
unpack_line_tiled-GaveAll u r rest l b e =
    unpack_tiles-GaveAll tiled_bits unpack_tile_tiled (2 ^ 15) unpack_tile_tiled-GaveAll (length u)
      u r rest (omega arith) l b e
