-- ===== src/Nlc/Frame/Decode.antt =====
-- internal/groovy/nlc/decode.go: the records of a stream, read one after the other.
use mi_ster_groovy_relay.Prelude.{
  ℕ, zero, suc, ◌+◌, ◌-◌, ◌*◌, ◌/◌, ◌%◌, ◌^◌, ◌<◌, ◌≡◌, refl, sym, ap, ap₂, ◌∙◌, false, List, [],
  ◌++◌, append_assoc, arith, ltb, length, length-append, get_or, le→ltb-false, le→ltb-false,
}
use Prim.Native.Nat.{bit_or}
use mi_ster_groovy_relay.Prelude.Bits.{bit_or-shift}
use mi_ster_groovy_relay.Prelude.Int.{ℤ}
use mi_ster_groovy_relay.Prelude.Result.{ok}
use mi_ster_groovy_relay.Prelude.Slices.{get_or-append, slice-append}
use mi_ster_groovy_relay.Nlc.Colour.{plane_range}
use mi_ster_groovy_relay.Nlc.Planes.{combine_line}
use mi_ster_groovy_relay.Nlc.Dpcm.{line_decode}
use mi_ster_groovy_relay.Nlc.Frame.{
  header_bytes, decode_line, Params, Rows, length_at, decode_segment,
}
use mi_ster_groovy_relay.Nlc.Frame.Segment.{IsCoded}
use mi_ster_groovy_relay.Nlc.Frame.Source.{
  IsSource, IsPlaneRow, loop_line, loop_line-Below, loop_line-IsPlaneRow, line_decode-loop_line,
}
use mi_ster_groovy_relay.Nlc.Frame.Records.{header, line_record}

low-high : (n : ℕ) → n < 65536 → bit_or (n % 256) (n / 256 % 256 * 2 ^ 8) ≡ n
low-high n h = bit_or-shift 8 (n % 256) (n / 256 % 256) (omega arith) ∙ omega arith

length_at-append :
    (pre xs : List ℕ) (at j n : ℕ)
    → at ≡ length pre + j
    → n < 65536
    → get_or xs j 0 ≡ n % 256
    → get_or xs (j + 1) 0 ≡ n / 256 % 256
    → length_at (pre ++ xs) at ≡ n
length_at-append pre xs at j n e h low high =
    let next : at + 1 ≡ length pre + (j + 1) = omega (arith, e) in
    ap₂ (λ i k. bit_or (get_or (pre ++ xs) i 0) (get_or (pre ++ xs) k 0 * 2 ^ 8)) e next
    ∙ ap₂ (λ u v. bit_or u (v * 2 ^ 8)) (get_or-append pre xs j 0 ∙ low)
        (get_or-append pre xs (j + 1) 0 ∙ high)
    ∙ low-high n h

-- A segment in the middle of the source that codes `u` gives the row of `u`.
decode_segment_lem :
    (p : Params) (k y : ℕ) (prev : List ℤ) (pre seg post u : List ℕ) (at : ℕ)
    → IsCoded p.pack u seg
    → length u ≡ p.width
    → at ≡ length pre
    → decode_segment p k y prev (pre ++ (seg ++ post)) (length seg) at
      ≡ ok
          (line_decode u prev (ltb 0 y) p.near (plane_range k).0 (plane_range k).1, at + length seg)
unfolding decode_segment
decode_segment_lem p k y prev pre seg post u at c w e =
    let fits : ltb (length (pre ++ (seg ++ post)) - length pre) (length seg) ≡ false =
      le→ltb-false _ _ (omega (arith, length-append pre (seg ++ post), length-append seg post)) in
    let inside : ltb (length (pre ++ (seg ++ post))) (length pre + length seg) ≡ false =
      le→ltb-false _ _ (omega (arith, length-append pre (seg ++ post), length-append seg post)) in
    rw (e, fits, inside, slice-append pre seg post, sym w, c.clean, c.values) refl

-- The three reconstructed rows of line `y`.
abbrev pub loop_rows : Params → List ℕ → ℕ → Rows → Rows
loop_rows p src y prev = record {
  row_y = (loop_line p 0 src y prev.row_y).0;
  row_co = (loop_line p 1 src y prev.row_co).0;
  row_cg = (loop_line p 2 src y prev.row_cg).0;
}

abbrev pub IsRows : Params → Rows → Type 0
IsRows p r = IsPlaneRow p 0 r.row_y × IsPlaneRow p 1 r.row_co × IsPlaneRow p 2 r.row_cg

-- The bytes that the encoder's own reconstruction stands for, from row `y` on.
unfoldable pub reconstruct : Params → List ℕ → ℕ → ℕ → Rows → List ℕ
reconstruct p src zero y prev = []
reconstruct p src (suc rounds) y prev =
    let cur = loop_rows p src y prev in
    combine_line cur.row_y cur.row_co cur.row_cg ++ reconstruct p src rounds (y + 1) cur

module _ (p : Params) (src : List ℕ) (h : IsSource p src) where
  pub loop_rows-IsRows :
      (y : ℕ) (prev : Rows) → y < p.height → IsRows p prev → IsRows p (loop_rows p src y prev)
  loop_rows-IsRows y prev below (a, b, c) = (
    loop_line-IsPlaneRow p 0 src y prev.row_y h below a,
    loop_line-IsPlaneRow p 1 src y prev.row_co h below b,
    loop_line-IsPlaneRow p 2 src y prev.row_cg h below c,
  )

  module _ (y : ℕ) (prev : Rows) (below : y < p.height) (above : IsRows p prev)
      (pre a b c post : List ℕ) where
    abbrev received : List ℕ
    received = pre ++ (line_record a b c ++ post)

    -- A segment of the record, of a plane whose last row is that of the closed loop.
    segment_lem :
        (k : ℕ) (row : List ℤ) (front seg back : List ℕ) (at : ℕ)
        → IsPlaneRow p k row
        → IsCoded p.pack (loop_line p k src y row).1 seg
        → at ≡ length front
        → received ≡ front ++ (seg ++ back)
        → decode_segment p k y row received (length seg) at
          ≡ ok ((loop_line p k src y row).0, at + length seg)
    segment_lem k row front seg back at r coded e whole =
        ap (λ t. decode_segment p k y row t (length seg) at) whole
        ∙ decode_segment_lem p k y row front seg back (loop_line p k src y row).1 at coded
            (loop_line-Below p k src y row h below r).1 e
        ∙ ap (λ t. ok (t, at + length seg)) (line_decode-loop_line p k src y row h below r)

    module _ (at : ℕ) (start : at ≡ length pre)
        (ca : IsCoded p.pack (loop_line p 0 src y prev.row_y).1 a)
        (cb : IsCoded p.pack (loop_line p 1 src y prev.row_co).1 b)
        (cg : IsCoded p.pack (loop_line p 2 src y prev.row_cg).1 c) (la : length a < 65536)
        (lb : length b < 65536) (lc : length c < 65536) where
      abbrev front : List ℕ
      front = pre ++ header a b c

      length-front : length front ≡ length pre + 8
      length-front = length-append pre (header a b c)

      whole_a : received ≡ front ++ (a ++ (b ++ (c ++ post)))
      whole_a =
          ap (λ t. pre ++ (header a b c ++ t))
            (append_assoc (a ++ b) c post ∙ append_assoc a b (c ++ post))
          ∙ sym (append_assoc pre (header a b c) (a ++ (b ++ (c ++ post))))

      whole_b : received ≡ (front ++ a) ++ (b ++ (c ++ post))
      whole_b = whole_a ∙ sym (append_assoc front a (b ++ (c ++ post)))

      whole_c : received ≡ ((front ++ a) ++ b) ++ (c ++ post)
      whole_c = whole_b ∙ sym (append_assoc (front ++ a) b (c ++ post))

      -- The record of line `y` gives the three rows of the closed loop.
      pub decode_line_lem :
          decode_line p y prev received at
          ≡ ok (loop_rows p src y prev, at + length (line_record a b c))
      unfolding decode_line
      decode_line_lem =
          let rest = line_record a b c ++ post in
          let total : length received
              ≡ length pre + (8 + (length a + length b + length c) + length post) =
            omega (
              arith,
              length-append pre rest,
              length-append ((a ++ b) ++ c) post,
              length-append (a ++ b) c,
              length-append a b,
            ) in
          let one : length (line_record a b c) ≡ 8 + length a + length b + length c =
            omega (arith, length-append (a ++ b) c, length-append a b) in
          let n : at + header_bytes + length a + length b + length c
              ≡ at + length (line_record a b c) =
            omega (arith, one) in
          let fits : ltb (length received) (at + header_bytes) ≡ false =
            le→ltb-false _ _ (omega (arith, total, start)) in
          let inside : ltb (length received) (at + 6) ≡ false =
            le→ltb-false _ _ (omega (arith, total, start)) in
          rw
            (
              fits,
              inside,
              length_at-append pre rest at 0 (length a) (omega (arith, start)) la refl refl,
              segment_lem 0 prev.row_y front a (b ++ (c ++ post)) (at + header_bytes) above.0 ca
                  (omega (arith, start, length-front)) whole_a,
              length_at-append pre rest (at + 2) 2 (length b) (omega (arith, start)) lb refl refl,
              segment_lem 1 prev.row_co (front ++ a) b (c ++ post) (at + header_bytes + length a)
                  above.1 cb (omega (arith, start, length-front, length-append front a)) whole_b,
              length_at-append pre rest (at + 4) 4 (length c) (omega (arith, start)) lc refl refl,
              segment_lem 2 prev.row_cg ((front ++ a) ++ b) c post
                  (at + header_bytes + length a + length b) above.2 cg
                  (omega (
                    arith,
                    start,
                    length-front,
                    length-append front a,
                    length-append (front ++ a) b,
                  ))
                  whole_c,
              n,
            )
            refl
