-- ===== src/Nlc/Pack/RoundTrip.antt =====
-- internal/groovy/nlc/codec.go: a line that is packed, finished and read again.
use mi_ster_groovy_relay.Prelude.{
  ℕ, zero, suc, ◌+◌, ◌*◌, ◌/◌, ◌%◌, ◌^◌, ◌≤◌, ◌≡◌, refl, ap, ◌∙◌, inl, inr, false, List, [], ◌∷◌,
  ◌++◌, arith, ltb, Bool-cases, length, take, drop, replicate,
}
use mi_ster_groovy_relay.Nlc.BitIo.{BitW, init_w, init_r, put, finish}
use mi_ster_groovy_relay.Nlc.BitIo.View.{IsReady, AllBytes, byte_bits, remaining, written}
use mi_ster_groovy_relay.Nlc.BitIo.Write.{Took}
use mi_ster_groovy_relay.Nlc.BitIo.Read.{IsLoaded, init_r-IsLoaded}
use mi_ster_groovy_relay.Nlc.BitIo.Fits.{length-written}
use mi_ster_groovy_relay.Nlc.BitIo.Finish.{finish-IsSegment, length-IsSegment, finish_fits}
use mi_ster_groovy_relay.Nlc.BitIo.Bytes.{put-AllBytes, finish-AllBytes, take-AllBytes}
use mi_ster_groovy_relay.Nlc.Pack.{
  tile_len, width_bits, tile_width, put_all, pack_tile_tiled, pack_tiles, pack_line_tiled,
  unpack_line_tiled, rice_limit, rice_u_bits, rice_k_for_tile, rice_put, rice_put_all,
  pack_tile_rice, pack_line_rice, unpack_line_rice,
}
use mi_ster_groovy_relay.Nlc.Pack.Format.{tiled_bits, rice_tile_bits, line_bits, Below}
use mi_ster_groovy_relay.Nlc.Pack.Write.{pack_line_tiled-Took}
use mi_ster_groovy_relay.Nlc.Pack.Read.{unpack_line_tiled-GaveAll}
use mi_ster_groovy_relay.Nlc.Pack.RiceWrite.{pack_line_rice-Took}
use mi_ster_groovy_relay.Nlc.Pack.RiceRead.{unpack_line_rice-GaveAll}

put_all-AllBytes :
    (bw : BitW) (w : ℕ) (vs : List ℕ) → AllBytes bw.buf → AllBytes (put_all bw w vs).buf
unfolding put_all
put_all-AllBytes bw w [] h = h
put_all-AllBytes bw w (v ∷ vs) h = put_all-AllBytes (put bw v w) w vs (put-AllBytes bw v w h)

pack_tiles-AllBytes :
    (pack_tile : BitW → List ℕ → BitW)
    → ((bw : BitW) (seg : List ℕ) → AllBytes bw.buf → AllBytes (pack_tile bw seg).buf)
    → (rounds : ℕ) (bw : BitW) (u : List ℕ) → AllBytes bw.buf
    → AllBytes (pack_tiles pack_tile rounds bw u).buf
unfolding pack_tiles
pack_tiles-AllBytes pack_tile each rounds bw [] h = h
pack_tiles-AllBytes pack_tile each zero bw (v ∷ vs) h = h
pack_tiles-AllBytes pack_tile each (suc rounds) bw (v ∷ vs) h =
    pack_tiles-AllBytes pack_tile each rounds (pack_tile bw (take tile_len (v ∷ vs)))
      (drop tile_len (v ∷ vs)) (each bw (take tile_len (v ∷ vs)) h)

pub pack_line_tiled-AllBytes :
    (bw : BitW) (u : List ℕ) → AllBytes bw.buf → AllBytes (pack_line_tiled bw u).buf
unfolding pack_line_tiled pack_tile_tiled
pack_line_tiled-AllBytes bw u h =
    pack_tiles-AllBytes pack_tile_tiled
      (λ w seg k.
        put_all-AllBytes (put w (tile_width 0 seg % 2 ^ 32) width_bits) (tile_width 0 seg) seg
          (put-AllBytes w (tile_width 0 seg % 2 ^ 32) width_bits k))
      (length u) bw u h

rice_put-AllBytes : (bw : BitW) (u k : ℕ) → AllBytes bw.buf → AllBytes (rice_put bw u k).buf
unfolding rice_put
rice_put-AllBytes bw u k h =
    let q = u / 2 ^ k in
    let one = put-AllBytes bw (1 * 2 ^ q) (q + 1) h in
    elim (Bool-cases (ltb q rice_limit)) [
      | inl small ↦ elim (Bool-cases (ltb 0 k)) [
        | inl some_bits ↦
            rw (small, some_bits) (put-AllBytes (put bw (1 * 2 ^ q) (q + 1)) (u % 2 ^ k) k one)
        | inr no_bits ↦ rw (small, no_bits) one
      ]
      | inr large ↦ rw large (
          put-AllBytes (put bw (1 * 2 ^ rice_limit) (rice_limit + 1)) u rice_u_bits
            (put-AllBytes bw (1 * 2 ^ rice_limit) (rice_limit + 1) h))
    ]

rice_put_all-AllBytes :
    (bw : BitW) (k : ℕ) (vs : List ℕ) → AllBytes bw.buf → AllBytes (rice_put_all bw k vs).buf
unfolding rice_put_all
rice_put_all-AllBytes bw k [] h = h
rice_put_all-AllBytes bw k (v ∷ vs) h =
    rice_put_all-AllBytes (rice_put bw v k) k vs (rice_put-AllBytes bw v k h)

pub pack_line_rice-AllBytes :
    (bw : BitW) (u : List ℕ) → AllBytes bw.buf → AllBytes (pack_line_rice bw u).buf
unfolding pack_line_rice pack_tile_rice
pack_line_rice-AllBytes bw u h =
    pack_tiles-AllBytes pack_tile_rice
      (λ w seg k.
        rice_put_all-AllBytes (put w (rice_k_for_tile seg % 2 ^ 32) width_bits)
          (rice_k_for_tile seg) seg (put-AllBytes w (rice_k_for_tile seg % 2 ^ 32) width_bits k))
      (length u) bw u h

pub init_w-IsReady : (b : List ℕ) → IsReady (init_w b)
unfolding init_w
init_w-IsReady b = record { pending = omega arith; small = omega arith; inside = λ e. omega arith }

written-init_w : (b : List ℕ) → written (init_w b) ≡ []
unfolding init_w
written-init_w b = refl

pub remaining-init_r : (b : List ℕ) → remaining (init_r b) ≡ byte_bits b
unfolding init_r
remaining-init_r b = refl

pub init_w-AllBytes : (b : List ℕ) → AllBytes b → AllBytes (init_w b).buf
unfolding init_w
init_w-AllBytes b h = h

-- A reader of what the writer `w` holds is valid and begins with the bits of `stream`.
pub record Sealed (stream : List ℕ) (w : BitW) : Type 0 where
  pub fits : w.ovf ≡ false
  pub inside : w.n ≤ length w.buf
  pub padding : ℕ
  pub count : 8 * w.n ≤ length stream + 7
  pub loaded : IsLoaded (init_r (take w.n w.buf))
  pub begins : remaining (init_r (take w.n w.buf)) ≡ stream ++ replicate padding 0

-- A buffer with room for the bits is enough: nothing overflows.
pub finish-Sealed :
    (b stream : List ℕ) (w : BitW)
    → Took (init_w b) stream w
    → AllBytes w.buf
    → length stream ≤ 8 * length b
    → Sealed stream (finish w)
finish-Sealed b stream w took bytes room =
    let start = ap (λ t. t ++ stream) (written-init_w b) in
    let size : length (init_w b).buf ≡ length b = (unfold init_w in refl) in
    let clean : (init_w b).ovf ≡ false = (unfold init_w in refl) in
    let f = took.fits clean (omega (arith, room, size, ap length start)) in
    let holds = (took.clean f).1 ∙ start in
    let done = finish_fits w f (
      omega
        (arith, room, size, took.size, length-written w (took.ready.inside f), ap length holds)) in
    let (g, seg) = finish-IsSegment w took.ready done in
    let segment = take (finish w).n (finish w).buf in
    record {
      fits = done;
      inside = seg.inside;
      count = omega (arith, length-IsSegment seg, seg.padding_small, ap length holds);
      padding = seg.padding;
      loaded =
          init_r-IsLoaded segment
            (take-AllBytes (finish w).n (finish w).buf (finish-AllBytes w bytes));
      begins = remaining-init_r segment ∙ seg.holds ∙ ap (λ t. t ++ replicate seg.padding 0) holds;
    }

-- A line of residuals below 2 ^ 15 is packed into a buffer of bytes that has room for the line's
-- bits: no write overflows, and unpacking the finished segment gives the residuals, and reads
-- nothing past the segment's end.
pub unpack_line_tiled-pack_line_tiled :
    (b u : List ℕ)
    → AllBytes b
    → Below (2 ^ 15) u
    → length (line_bits tiled_bits (length u) u) ≤ 8 * length b
    → let w = finish (pack_line_tiled (init_w b) u) in
      let (v, r) = unpack_line_tiled (init_r (take w.n w.buf)) (length u) in
      (w.ovf ≡ false) × (v ≡ u) × (r.overrun ≡ false)
unpack_line_tiled-pack_line_tiled b u h k room =
    let packed = pack_line_tiled (init_w b) u in
    let s =
      finish-Sealed b (line_bits tiled_bits (length u) u) packed
        (pack_line_tiled-Took (init_w b) u (init_w-IsReady b) k)
        (pack_line_tiled-AllBytes (init_w b) u (init_w-AllBytes b h)) room in
    let w = finish packed in
    let g =
      unpack_line_tiled-GaveAll u (init_r (take w.n w.buf)) (replicate s.padding 0) s.loaded k
        s.begins in
    (s.fits, g.values, g.loaded.clean)

-- A line of residuals below 2 ^ 12 is packed in Rice code into a buffer of bytes that has room for
-- the line's bits: no write overflows, and unpacking the finished segment gives the residuals, and
-- reads nothing past the segment's end.
pub unpack_line_rice-pack_line_rice :
    (b u : List ℕ)
    → AllBytes b
    → Below (2 ^ 12) u
    → length (line_bits rice_tile_bits (length u) u) ≤ 8 * length b
    → let w = finish (pack_line_rice (init_w b) u) in
      let (v, r) = unpack_line_rice (init_r (take w.n w.buf)) (length u) in
      (w.ovf ≡ false) × (v ≡ u) × (r.overrun ≡ false)
unpack_line_rice-pack_line_rice b u h k room =
    let packed = pack_line_rice (init_w b) u in
    let s =
      finish-Sealed b (line_bits rice_tile_bits (length u) u) packed
        (pack_line_rice-Took (init_w b) u (2 ^ 12) (init_w-IsReady b) k)
        (pack_line_rice-AllBytes (init_w b) u (init_w-AllBytes b h)) room in
    let w = finish packed in
    let g =
      unpack_line_rice-GaveAll u (init_r (take w.n w.buf)) (replicate s.padding 0) s.loaded k
        s.begins in
    (s.fits, g.values, g.loaded.clean)
