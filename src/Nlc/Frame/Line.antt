-- ===== src/Nlc/Frame/Line.antt =====
-- internal/groovy/nlc/encode.go: one line of a plane, stored in the plane's scratch.
use mi_ster_groovy_relay.Prelude.{
  ℕ, ◌+◌, ◌-◌, ◌*◌, ◌^◌, ◌≤◌, ◌≡◌, refl, sym, ap, ap₂, ◌∙◌, false, List, ◌++◌, append_assoc, arith,
  ltb, length, set, length-append, take, drop, replicate, take-append-drop, length-take,
  length-drop, length-replicate, le→ltb-false, take-append_length, le→ltb-false,
}
use mathlib.Core.Path.{subst}
use mi_ster_groovy_relay.Prelude.Int.{ℤ}
use mi_ster_groovy_relay.Prelude.Slices.{copy_at, copy_at-append}
use mi_ster_groovy_relay.Nlc.BitIo.{BitW, init_w, finish}
use mi_ster_groovy_relay.Nlc.BitIo.View.{AllBytes}
use mi_ster_groovy_relay.Nlc.BitIo.Bytes.{
  take-AllBytes, drop-AllBytes, append-AllBytes, zeros-AllBytes,
}
use mi_ster_groovy_relay.Nlc.Pack.Format.{Below}
use mi_ster_groovy_relay.Nlc.Frame.{
  Pack, PlaneScratch, LineResult, pack_line, padding_of, store_line,
}
use mi_ster_groovy_relay.Nlc.Frame.Segment.{IsCoded, finish-Packed}

-- The room that a line of `w` residuals needs in `segbuf`.
abbrev pub line_room : ℕ → ℕ
line_room w = 3 * w + 8

-- The line's segment is behind the others, and the scratch is as before but for that.
pub record Stored (pack : Pack) (y : ℕ) (s : PlaneScratch) (off : ℕ) (cur : List ℤ) (u : List ℕ)
    (r : LineResult) : Type 0 where
  pub seg : List ℕ
  pub coded : IsCoded pack u seg
  pub short : 8 * length seg ≤ 17 * length u + 63
  pub goes_on : r.stop ≡ false
  pub behind : r.off ≡ off + length seg
  pub front : take (off + length seg) r.scratch.segbuf ≡ take off s.segbuf ++ seg
  pub size : length r.scratch.segbuf ≡ length s.segbuf
  pub bytes : AllBytes r.scratch.segbuf
  pub prev : r.scratch.prev ≡ cur
  pub lengths : r.scratch.seglen ≡ set s.seglen y (length seg)
  pub ovf : r.scratch.ovf ≡ s.ovf

-- What `segbuf` becomes: the finished bytes of `w` and `pad` zeros, in place of what stood there.
module _ (s : PlaneScratch) (off : ℕ) (w : BitW) (pad : ℕ) (start : off ≤ length s.segbuf)
    (size : length w.buf ≡ length s.segbuf - off) (fits : off + w.n + pad ≤ length s.segbuf) where
  abbrev before : List ℕ
  before = take off s.segbuf

  abbrev segment : List ℕ
  segment = take w.n w.buf ++ replicate pad 0

  abbrev after : List ℕ
  after = drop pad (drop w.n w.buf)

  length-segment : length segment ≡ w.n + pad
  length-segment = omega (
    arith,
    length-append (take w.n w.buf) (replicate pad 0),
    length-take w.n w.buf,
    length-replicate {A = ℕ} pad 0,
    fits,
    size,
  )

  length-before : length before ≡ off
  length-before = omega (arith, length-take off s.segbuf, start)

  padded : copy_at (before ++ w.buf) (off + w.n) (replicate pad 0) ≡ before ++ (segment ++ after)
  padded =
      let whole = sym (take-append-drop w.n w.buf) in
      let front = before ++ take w.n w.buf in
      let at : off + w.n ≡ length front = omega (
        arith,
        length-append before (take w.n w.buf),
        length-before,
        length-take w.n w.buf,
        fits,
        size,
      ) in
      ap (λ t. copy_at (before ++ t) (off + w.n) (replicate pad 0)) whole
      ∙ ap (λ t. copy_at t (off + w.n) (replicate pad 0))
          (sym (append_assoc before (take w.n w.buf) (drop w.n w.buf)))
      ∙ ap (λ n. copy_at (front ++ drop w.n w.buf) n (replicate pad 0)) at
      ∙ copy_at-append front (drop w.n w.buf) (replicate pad 0)
      ∙ ap (λ n. front ++ (replicate pad 0 ++ drop n (drop w.n w.buf))) (length-replicate pad 0)
      ∙ append_assoc before (take w.n w.buf) (replicate pad 0 ++ after)
      ∙ ap (λ t. before ++ t) (sym (append_assoc (take w.n w.buf) (replicate pad 0) after))

  length-padded : length (before ++ (segment ++ after)) ≡ length s.segbuf
  length-padded = omega (
    arith,
    length-append before (segment ++ after),
    length-append segment after,
    length-segment,
    length-before,
    length-drop pad (drop w.n w.buf),
    length-drop w.n w.buf,
    fits,
    size,
    start,
  )

  front-padded : take (off + length segment) (before ++ (segment ++ after)) ≡ before ++ segment
  front-padded =
      let n : off + length segment ≡ length (before ++ segment) =
        omega (arith, length-append before segment, length-before) in
      ap₂ take n (sym (append_assoc before segment after))
      ∙ take-append_length (before ++ segment) after

  padded-AllBytes : AllBytes s.segbuf → AllBytes w.buf → AllBytes (before ++ (segment ++ after))
  padded-AllBytes h k = append-AllBytes before (segment ++ after) (take-AllBytes off s.segbuf h) (
      append-AllBytes segment after
        (append-AllBytes (take w.n w.buf) (replicate pad 0) (take-AllBytes w.n w.buf k)
          (zeros-AllBytes pad))
        (drop-AllBytes pad (drop w.n w.buf) (drop-AllBytes w.n w.buf k)))

-- A line of residuals below 2 ^ 10, where `segbuf` has room for it, is stored.
pub store_line-Stored :
    (pack : Pack) (y : ℕ) (s : PlaneScratch) (off : ℕ) (cur : List ℤ) (u : List ℕ)
    → AllBytes s.segbuf
    → Below (2 ^ 10) u
    → length u ≤ 4096
    → off + line_room (length u) ≤ length s.segbuf
    → Stored pack y s off cur u (store_line pack y s off cur u)
unfolding store_line
store_line-Stored pack y s off cur u bytes h few room =
    let b = drop off s.segbuf in
    let left = length-drop off s.segbuf in
    let p =
      finish-Packed pack b u (drop-AllBytes off s.segbuf bytes) h (omega (arith, room, left)) in
    let w = finish (pack_line pack (init_w b) u) in
    let pad = padding_of w.n in
    let start : off ≤ length s.segbuf = omega (arith, room) in
    let size : length w.buf ≡ length s.segbuf - off = p.size ∙ left in
    let pad_small : pad ≤ 7 = omega arith in
    let fits : off + w.n + pad ≤ length s.segbuf = omega (arith, p.short, pad_small, room) in
    let narrow : ltb 65535 (w.n + pad) ≡ false =
      le→ltb-false _ _ (omega (arith, p.short, pad_small, few)) in
    let roomy : ltb (length s.segbuf) (off + w.n + pad) ≡ false =
      le→ltb-false _ _ (omega (arith, fits)) in
    let whole = padded s off w pad start size fits in
    let n = length-segment s off w pad start size fits in
    rw (p.fits, narrow, roomy)
      (record {
        seg = segment s off w pad start size fits;
        coded = p.coded pad;
        short = omega (arith, n, p.short, pad_small);
        goes_on = refl;
        behind = omega (arith, n);
        front = ap (take _) whole ∙ front-padded s off w pad start size fits;
        size = ap length whole ∙ length-padded s off w pad start size fits;
        bytes =
            subst AllBytes (sym whole) (padded-AllBytes s off w pad start size fits bytes p.bytes);
        prev = refl;
        lengths = ap (set s.seglen y) (sym n);
        ovf = refl;
      })
