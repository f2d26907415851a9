-- ===== src/Nlc/Frame/Segment.antt =====
-- internal/groovy/nlc/encode.go and decode.go: the segment of one line in either packing.
use mi_ster_groovy_relay.Prelude.{
  ℕ, ◌+◌, ◌*◌, ◌^◌, ◌≤◌, ◌≡◌, refl, sym, ap, ◌∙◌, false, List, [], ◌∷◌, ◌++◌, append_assoc, arith,
  length, take, replicate,
}
use mi_ster_groovy_relay.Nlc.BitIo.{BitW, init_w, init_r, finish}
use mi_ster_groovy_relay.Nlc.BitIo.View.{AllBytes, byte_bits, byte_bits-append}
use mi_ster_groovy_relay.Nlc.BitIo.Write.{Took}
use mi_ster_groovy_relay.Nlc.BitIo.Read.{init_r-IsLoaded}
use mi_ster_groovy_relay.Nlc.BitIo.Finish.{length-finish}
use mi_ster_groovy_relay.Nlc.BitIo.Bytes.{
  finish-AllBytes, take-AllBytes, append-AllBytes, zeros-AllBytes,
}
use mi_ster_groovy_relay.Nlc.Pack.Format.{tiled_bits, rice_tile_bits, line_bits, Below}
use mi_ster_groovy_relay.Nlc.Pack.Write.{pack_line_tiled-Took}
use mi_ster_groovy_relay.Nlc.Pack.Read.{unpack_line_tiled-GaveAll}
use mi_ster_groovy_relay.Nlc.Pack.RiceWrite.{pack_line_rice-Took}
use mi_ster_groovy_relay.Nlc.Pack.RiceRead.{unpack_line_rice-GaveAll}
use mi_ster_groovy_relay.Nlc.Pack.Sizes.{tiled_line_size, rice_line_size}
use mi_ster_groovy_relay.Nlc.Pack.RoundTrip.{
  finish-Sealed, init_w-IsReady, remaining-init_r, init_w-AllBytes, pack_line_tiled-AllBytes,
  pack_line_rice-AllBytes,
}
use mi_ster_groovy_relay.Nlc.Frame.{Pack, pack_tiled, pack_rice, pack_line, unpack_line}

-- Unpacking the segment gives the residuals, and reads nothing past its end.
pub record IsCoded (pack : Pack) (u seg : List ℕ) : Type 0 where
  pub values : (unpack_line pack (init_r seg) (length u)).0 ≡ u
  pub clean : (unpack_line pack (init_r seg) (length u)).1.overrun ≡ false

Below-mono : (m n : ℕ) (vs : List ℕ) → m ≤ n → Below m vs → Below n vs
Below-mono m n [] l h = tt
Below-mono m n (v ∷ vs) l (h, hs) = (omega arith, Below-mono m n vs l hs)

abbrev stream_of : Pack → List ℕ → List ℕ
stream_of pack_tiled u = line_bits tiled_bits (length u) u
stream_of pack_rice u = line_bits rice_tile_bits (length u) u

stream_of-size :
    (pack : Pack) (u : List ℕ) → Below (2 ^ 10) u → length (stream_of pack u) ≤ 17 * length u
stream_of-size pack_tiled u h = tiled_line_size u h
stream_of-size pack_rice u h = rice_line_size u h

pack_line-Took :
    (pack : Pack) (b u : List ℕ)
    → Below (2 ^ 10) u
    → Took (init_w b) (stream_of pack u) (pack_line pack (init_w b) u)
pack_line-Took pack_tiled b u h =
    pack_line_tiled-Took (init_w b) u (init_w-IsReady b)
      (Below-mono (2 ^ 10) (2 ^ 15) u (omega arith) h)
pack_line-Took pack_rice b u h = pack_line_rice-Took (init_w b) u (2 ^ 10) (init_w-IsReady b) h

pack_line-AllBytes :
    (pack : Pack) (b u : List ℕ) → AllBytes b → AllBytes (pack_line pack (init_w b) u).buf
pack_line-AllBytes pack_tiled b u h = pack_line_tiled-AllBytes (init_w b) u (init_w-AllBytes b h)
pack_line-AllBytes pack_rice b u h = pack_line_rice-AllBytes (init_w b) u (init_w-AllBytes b h)

-- A reader that begins with the stream gives the residuals, whatever comes behind it.
IsCoded-begins :
    (pack : Pack) (u seg rest : List ℕ)
    → Below (2 ^ 10) u
    → AllBytes seg
    → byte_bits seg ≡ stream_of pack u ++ rest
    → IsCoded pack u seg
IsCoded-begins pack_tiled u seg rest h bytes e =
    let g =
      unpack_line_tiled-GaveAll u (init_r seg) rest (init_r-IsLoaded seg bytes)
        (Below-mono (2 ^ 10) (2 ^ 15) u (omega arith) h) (remaining-init_r seg ∙ e) in
    record { values = g.values; clean = g.loaded.clean }
IsCoded-begins pack_rice u seg rest h bytes e =
    let g =
      unpack_line_rice-GaveAll u (init_r seg) rest (init_r-IsLoaded seg bytes)
        (Below-mono (2 ^ 10) (2 ^ 12) u (omega arith) h) (remaining-init_r seg ∙ e) in
    record { values = g.values; clean = g.loaded.clean }

-- The finished writer of a line, in a buffer with room for 17 bits a residual.
pub record Packed (pack : Pack) (b u : List ℕ) (w : BitW) : Type 0 where
  pub fits : w.ovf ≡ false
  pub inside : w.n ≤ length w.buf
  pub size : length w.buf ≡ length b
  pub short : 8 * w.n ≤ 17 * length u + 7
  pub bytes : AllBytes w.buf
  pub coded : (pad : ℕ) → IsCoded pack u (take w.n w.buf ++ replicate pad 0)

pub finish-Packed :
    (pack : Pack) (b u : List ℕ)
    → AllBytes b
    → Below (2 ^ 10) u
    → 17 * length u ≤ 8 * length b
    → Packed pack b u (finish (pack_line pack (init_w b) u))
finish-Packed pack b u bytes h room =
    let packed = pack_line pack (init_w b) u in
    let took = pack_line-Took pack b u h in
    let written = pack_line-AllBytes pack b u bytes in
    let most = stream_of-size pack u h in
    let s = finish-Sealed b (stream_of pack u) packed took written (omega (arith, most, room)) in
    let w = finish packed in
    let buffer : length (init_w b).buf ≡ length b = (unfold init_w in refl) in
    let seg = take w.n w.buf in
    let whole = finish-AllBytes packed written in
    let begins : byte_bits seg ≡ stream_of pack u ++ replicate s.padding 0 =
      sym (remaining-init_r seg) ∙ s.begins in
    record {
      fits = s.fits;
      inside = s.inside;
      size = length-finish packed took.ready ∙ took.size ∙ buffer;
      short = omega (arith, s.count, most);
      bytes = whole;
      coded = λ pad.
          IsCoded-begins pack u (seg ++ replicate pad 0)
            (replicate s.padding 0 ++ byte_bits (replicate pad 0)) h
            (append-AllBytes seg (replicate pad 0) (take-AllBytes w.n w.buf whole)
              (zeros-AllBytes pad))
            (byte_bits-append seg (replicate pad 0)
              ∙ ap (λ t. t ++ byte_bits (replicate pad 0)) begins
              ∙ append_assoc (stream_of pack u) (replicate s.padding 0)
                  (byte_bits (replicate pad 0)));
    }
