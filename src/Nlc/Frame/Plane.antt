-- ===== src/Nlc/Frame/Plane.antt =====
-- internal/groovy/nlc/encode.go: the lines of one plane.
use mi_ster_groovy_relay.Prelude.{
  ℕ, zero, suc, ◌+◌, ◌*◌, ◌≤◌, ◌<◌, ◌≡◌, refl, sym, ap, ◌∙◌, false, List, [], ◌∷◌, ◌++◌,
  append_assoc, append-nil, arith, length, length-set, take, drop, replicate, take-append-drop,
  take_all, concat, take-set_end,
}
use mathlib.Core.Path.{subst}
use mi_ster_groovy_relay.Prelude.Int.{ℤ, pos}
use mi_ster_groovy_relay.Nlc.BitIo.View.{AllBytes}
use mi_ster_groovy_relay.Nlc.Frame.{
  Params, PlaneScratch, LineResult, encode_line, encode_lines, encode_plane, row_at,
}
use mi_ster_groovy_relay.Nlc.Frame.Segment.{IsCoded}
use mi_ster_groovy_relay.Nlc.Frame.Line.{line_room, Stored, store_line-Stored}
use mi_ster_groovy_relay.Nlc.Frame.Source.{
  IsSource, loop_line, IsPlaneRow, loop_line-Below, loop_line-IsPlaneRow, zeros-IsPlaneRow,
}

-- The segments code the closed loop's residuals from row `y` on.
abbrev pub Lines : Params → ℕ → List ℕ → ℕ → ℕ → List ℤ → List (List ℕ) → Type 0
Lines p k src zero y prev segs = segs ≡ []
Lines p k src (suc rounds) y prev [] = ⊥
Lines p k src (suc rounds) y prev (seg ∷ segs) =
    IsCoded p.pack (loop_line p k src y prev).1 seg
    × (8 * length seg ≤ 17 * p.width + 63)
    × Lines p k src rounds (y + 1) (loop_line p k src y prev).0 segs

abbrev pub seg_lengths : List (List ℕ) → List ℕ
seg_lengths [] = []
seg_lengths (seg ∷ segs) = length seg ∷ seg_lengths segs

-- The lines are stored behind what is in `segbuf` up to `off`, and their lengths from `y` on.
pub record Encoded (p : Params) (k : ℕ) (src : List ℕ) (rounds y : ℕ) (s : PlaneScratch) (off : ℕ)
    (s' : PlaneScratch) : Type 0 where
  pub segs : List (List ℕ)
  pub lines : Lines p k src rounds y s.prev segs
  pub rest : List ℕ
  pub holds : s'.segbuf ≡ take off s.segbuf ++ (concat segs ++ rest)
  pub lengths : s'.seglen ≡ take y s.seglen ++ seg_lengths segs
  pub ovf : s'.ovf ≡ s.ovf
  pub size : length s'.segbuf ≡ length s.segbuf
  pub bytes : AllBytes s'.segbuf
  pub rows : length s'.prev ≡ p.width

-- The scratch of a plane between frames.
abbrev pub IsScratch : Params → PlaneScratch → Type 0
IsScratch p s =
    (length s.prev ≡ p.width)
    × (length s.seglen ≡ p.height)
    × (p.height * line_room p.width ≤ length s.segbuf)
    × AllBytes s.segbuf

abbrev pub first_row : Params → List ℤ
first_row p = replicate p.width (pos 0)

module _ (p : Params) (k : ℕ) (src : List ℕ) (h : IsSource p src) where
  encode_line-Stored :
      (y : ℕ) (s : PlaneScratch) (off : ℕ)
      → y < p.height
      → IsPlaneRow p k s.prev
      → AllBytes s.segbuf
      → off + line_room p.width ≤ length s.segbuf
      → let (cur, u) = loop_line p k src y s.prev in
        Stored p.pack y s off cur u (encode_line p k (row_at p src y) y s off)
  unfolding encode_line
  encode_line-Stored y s off below above bytes room =
      let (cur, u) = loop_line p k src y s.prev in
      let (small, count) = loop_line-Below p k src y s.prev h below above in
      store_line-Stored p.pack y s off cur u bytes small (omega (arith, count, h.narrow))
        (omega (arith, count, room))

  -- A line that is stored, and the lines behind it.
  Encoded-suc :
      (rounds y : ℕ) (s : PlaneScratch) (off : ℕ) (r : LineResult) (s' : PlaneScratch)
      → y < length s.seglen
      → length (loop_line p k src y s.prev).1 ≡ p.width
      → Stored p.pack y s off (loop_line p k src y s.prev).0 (loop_line p k src y s.prev).1 r
      → Encoded p k src rounds (y + 1) r.scratch r.off s'
      → Encoded p k src (suc rounds) y s off s'
  Encoded-suc rounds y s off r s' below count t e = record {
    segs = t.seg ∷ e.segs;
    lines = (
      t.coded,
      omega (arith, t.short, count),
      subst (λ q. Lines p k src rounds (y + 1) q e.segs) t.prev e.lines,
    );
    rest = e.rest;
    holds =
        e.holds
        ∙ ap (λ q. q ++ (concat e.segs ++ e.rest))
            (ap (λ n. take n r.scratch.segbuf) t.behind ∙ t.front)
        ∙ append_assoc (take off s.segbuf) t.seg (concat e.segs ++ e.rest)
        ∙ ap (λ q. take off s.segbuf ++ q) (sym (append_assoc t.seg (concat e.segs) e.rest));
    lengths =
        e.lengths
        ∙ ap (λ q. q ++ seg_lengths e.segs)
            (ap (take (y + 1)) t.lengths ∙ take-set_end s.seglen y (length t.seg) below)
        ∙ append_assoc (take y s.seglen) (length t.seg ∷ []) (seg_lengths e.segs);
    ovf = e.ovf ∙ t.ovf;
    size = e.size ∙ t.size;
    bytes = e.bytes;
    rows = e.rows;
  }

  encode_lines-Encoded :
      (rounds y : ℕ) (s : PlaneScratch) (off : ℕ)
      → y + rounds ≡ p.height
      → length s.seglen ≡ p.height
      → IsPlaneRow p k s.prev
      → AllBytes s.segbuf
      → off + rounds * line_room p.width ≤ length s.segbuf
      → Encoded p k src rounds y s off (encode_lines p k src rounds y s off)
  unfolding encode_lines
  encode_lines-Encoded zero y s off e n above bytes room = record {
    segs = [];
    lines = refl;
    rest = drop off s.segbuf;
    holds = sym (take-append-drop off s.segbuf);
    lengths = sym (append-nil (take y s.seglen) ∙ take_all y s.seglen (omega (arith, e, n)));
    ovf = refl;
    size = refl;
    bytes = bytes;
    rows = above.0;
  }
  encode_lines-Encoded (suc rounds) y s off e n above bytes room =
      let cap = line_room p.width in
      let one : suc rounds * cap ≡ cap + rounds * cap = grind arith in
      let below : y < p.height = omega (arith, e) in
      let r = encode_line p k (row_at p src y) y s off in
      let t = encode_line-Stored y s off below above bytes (omega (arith, room, one)) in
      let (small, count) = loop_line-Below p k src y s.prev h below above in
      let rest =
        encode_lines-Encoded rounds (y + 1) r.scratch r.off (omega (arith, e))
          (ap length t.lengths ∙ length-set s.seglen y (length t.seg) ∙ n)
          (subst (IsPlaneRow p k) (sym t.prev)
            (loop_line-IsPlaneRow p k src y s.prev h below above))
          t.bytes (omega (arith, room, one, t.behind, t.short, t.size, count)) in
      rw (t.goes_on) (Encoded-suc rounds y s off r _ (omega (arith, n, below)) count t rest)

  -- A plane as a list of segments.
  pub record Planed (s' : PlaneScratch) : Type 0 where
    pub segs : List (List ℕ)
    pub lines : Lines p k src p.height 0 (first_row p) segs
    pub rest : List ℕ
    pub holds : s'.segbuf ≡ concat segs ++ rest
    pub lengths : s'.seglen ≡ seg_lengths segs
    pub ovf : s'.ovf ≡ false
    pub again : IsScratch p s'

  length-seg_lengths : (segs : List (List ℕ)) → length (seg_lengths segs) ≡ length segs
  length-seg_lengths [] = refl
  length-seg_lengths (seg ∷ segs) = ap suc (length-seg_lengths segs)

  pub length-Lines :
      (rounds y : ℕ) (prev : List ℤ) (segs : List (List ℕ))
      → Lines p k src rounds y prev segs
      → length segs ≡ rounds
  length-Lines zero y prev segs e = ap length e
  length-Lines (suc rounds) y prev [] e = elim e [ ]
  length-Lines (suc rounds) y prev (seg ∷ segs) (c, b, e) =
      ap suc (length-Lines rounds (y + 1) _ segs e)

  pub encode_plane-Planed : (s : PlaneScratch) → IsScratch p s → Planed (encode_plane p k src s)
  unfolding encode_plane
  encode_plane-Planed s (n, m, room, bytes) =
      let s₀ = record s { prev = replicate (length s.prev) (pos 0); ovf = false } in
      let above : IsPlaneRow p k (replicate (length s.prev) (pos 0)) =
        subst (λ w. IsPlaneRow p k (replicate w (pos 0))) (sym n) (zeros-IsPlaneRow p k) in
      let e =
        encode_lines-Encoded p.height 0 s₀ 0 (omega arith) m above bytes (omega (arith, room)) in
      let lines = subst (λ w. Lines p k src p.height 0 (replicate w (pos 0)) e.segs) n e.lines in
      record {
        segs = e.segs;
        lines = lines;
        rest = e.rest;
        holds = e.holds;
        lengths = e.lengths;
        ovf = e.ovf;
        again = (
          e.rows,
          ap length e.lengths
              ∙ length-seg_lengths e.segs
              ∙ length-Lines p.height 0 (first_row p) e.segs lines,
          omega (arith, e.size, room),
          e.bytes,
        );
      }
