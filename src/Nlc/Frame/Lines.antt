-- ===== src/Nlc/Frame/Lines.antt =====
-- internal/groovy/nlc/decode.go: the lines of a stream, one after the other.
use mi_ster_groovy_relay.Prelude.{
  ℕ, zero, suc, ◌+◌, ◌*◌, ◌≤◌, ◌<◌, ◌≡◌, refl, sym, ap, ap₂, ◌∙◌, true, List, [], ◌∷◌, ◌++◌,
  append_assoc, arith, ◌==◌, ==_iff, length, length-append, drop, take-append-drop, drop_add,
}
use mi_ster_groovy_relay.Prelude.Result.{ok}
use mi_ster_groovy_relay.Nlc.Planes.{bpp, to_plane_line, combine_line}
use mi_ster_groovy_relay.Nlc.Planes.RoundTrip.{combine_line-to_plane_line}
use mi_ster_groovy_relay.Nlc.Frame.{Params, Rows, decode_line, decode_lines, row_at}
use mi_ster_groovy_relay.Nlc.Frame.Source.{IsSource, row_at-IsRow, loop_line_lossless}
use mi_ster_groovy_relay.Nlc.Frame.Plane.{Lines}
use mi_ster_groovy_relay.Nlc.Frame.Records.{line_record, stream}
use mi_ster_groovy_relay.Nlc.Frame.Decode.{
  loop_rows, IsRows, reconstruct, loop_rows-IsRows, decode_line_lem,
}

drop_all : (n : ℕ) (xs : List ℕ) → length xs ≤ n → drop n xs ≡ []
drop_all zero [] h = refl
drop_all zero (x ∷ xs) h = absurd (omega arith)
drop_all (suc n) [] h = refl
drop_all (suc n) (x ∷ xs) h = drop_all n xs (omega arith)

decode_lines-suc :
    (p : Params) (rounds y : ℕ) (prev : Rows) (src : List ℕ) (at : ℕ) (cur : Rows) (next : ℕ)
    (rows : List ℕ)
    → decode_line p y prev src at ≡ ok (cur, next)
    → decode_lines p rounds (y + 1) cur src next ≡ ok rows
    → decode_lines p (suc rounds) y prev src at
      ≡ ok (combine_line cur.row_y cur.row_co cur.row_cg ++ rows)
unfolding decode_lines
decode_lines-suc p rounds y prev src at cur next rows h k = rw (decode_lines, h, k) refl

decode_lines_end :
    (p : Params) (y : ℕ) (prev : Rows) (pre : List ℕ)
    → decode_lines p 0 y prev (pre ++ []) (length pre) ≡ ok []
unfolding decode_lines
decode_lines_end p y prev pre =
    let e : (length pre == length (pre ++ [])) ≡ true =
      (==_iff (length pre) (length (pre ++ []))).1 (omega (arith, length-append {A = ℕ} pre [])) in
    rw e refl

module _ (p : Params) (src : List ℕ) (h : IsSource p src) where
  -- Segments of the closed loop's residuals are decoded to what the closed loop reconstructed.
  pub decode_lines_lem :
      (rounds y : ℕ) (prev : Rows) (pre : List ℕ) (xs ys zs : List (List ℕ))
      → y + rounds ≡ p.height
      → IsRows p prev
      → Lines p 0 src rounds y prev.row_y xs
      → Lines p 1 src rounds y prev.row_co ys
      → Lines p 2 src rounds y prev.row_cg zs
      → decode_lines p rounds y prev (pre ++ stream xs ys zs) (length pre)
        ≡ ok (reconstruct p src rounds y prev)
  unfolding reconstruct
  decode_lines_lem zero y prev pre xs ys zs e r lx ly lz = rw lx (decode_lines_end p y prev pre)
  decode_lines_lem (suc rounds) y prev pre [] ys zs e r lx ly lz = elim lx [ ]
  decode_lines_lem (suc rounds) y prev pre (a ∷ xs) [] zs e r lx ly lz = elim ly [ ]
  decode_lines_lem (suc rounds) y prev pre (a ∷ xs) (b ∷ ys) [] e r lx ly lz = elim lz [ ]
  decode_lines_lem (suc rounds) y prev pre (a ∷ xs) (b ∷ ys) (c ∷ zs) e r (ca, na, lx) (cb, nb, ly)
        (cg, nc, lz) =
      let below : y < p.height = omega (arith, e) in
      let one = line_record a b c in
      let more = stream xs ys zs in
      let cur = loop_rows p src y prev in
      let first =
        decode_line_lem p src h y prev below r pre a b c more (length pre) refl ca cb cg
          (omega (arith, na, h.narrow)) (omega (arith, nb, h.narrow))
          (omega (arith, nc, h.narrow)) in
      let rest =
        decode_lines_lem rounds (y + 1) cur (pre ++ one) xs ys zs (omega (arith, e))
          (loop_rows-IsRows p src h y prev below r) lx ly lz in
      decode_lines-suc p rounds y prev (pre ++ (one ++ more)) (length pre) cur
        (length pre + length one) (reconstruct p src rounds (y + 1) cur) first
        (ap₂ (λ t n. decode_lines p rounds (y + 1) cur t n) (sym (append_assoc pre one more))
            (sym (length-append pre one))
          ∙ rest)

  -- At level 0 the closed loop reconstructs the source.
  pub reconstruct_lossless :
      (rounds y : ℕ) (prev : Rows)
      → p.near ≡ 0
      → y + rounds ≡ p.height
      → IsRows p prev
      → reconstruct p src rounds y prev ≡ drop (y * (p.width * bpp)) src
  unfolding reconstruct
  reconstruct_lossless zero y prev z e r =
      let n = p.width * bpp in
      let last : y * n ≡ p.height * n = ap (λ i. i * n) (omega (arith, e)) in
      sym (drop_all (y * n) src (omega (arith, last, h.size)))
  reconstruct_lossless (suc rounds) y prev z e r =
      let n = p.width * bpp in
      let below : y < p.height = omega (arith, e) in
      let cur = loop_rows p src y prev in
      let row = row_at p src y in
      let next : y * n + n ≡ (y + 1) * n = grind arith in
      let planes : combine_line cur.row_y cur.row_co cur.row_cg
          ≡ combine_line (to_plane_line row 0) (to_plane_line row 1) (to_plane_line row 2) =
        rw
          (
            loop_line_lossless p 0 src y prev.row_y h below r.0 z,
            loop_line_lossless p 1 src y prev.row_co h below r.1 z,
            loop_line_lossless p 2 src y prev.row_cg h below r.2 z,
          )
          refl in
      ap₂ ◌++◌ (planes ∙ combine_line-to_plane_line p.width row (row_at-IsRow p src y h below)) (
        reconstruct_lossless rounds (y + 1) cur z (omega (arith, e))
          (loop_rows-IsRows p src h y prev below r)
        ∙ ap (λ i. drop i src) (sym next)
        ∙ sym (drop_add n (y * n) src))
      ∙ take-append-drop n (drop (y * n) src)
