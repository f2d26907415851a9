-- ===== src/Nlc/Frame/Assemble.antt =====
-- internal/groovy/nlc/encode.go: the records of the lines in the destination.
use mi_ster_groovy_relay.Prelude.{
  ℕ, ◌+◌, ◌*◌, ◌/◌, ◌%◌, ◌≤◌, ◌<◌, ◌≡◌, sym, ap, ap₂, ◌∙◌, false, some, List, ◌∷◌, ◌++◌,
  append_assoc, arith, ltb, length, set, length-append, length-set, get_or, take, drop,
  le→ltb-false, take-append_length, drop-append_length, concat, drop_add, le→ltb-false,
}
use mi_ster_groovy_relay.Prelude.Slices.{
  copy_at, copy_at-append, set-append, set-front, get_or-drop,
}
use mi_ster_groovy_relay.Nlc.Frame.{PlaneScratch, put_segment}
use mi_ster_groovy_relay.Nlc.Frame.Plane.{seg_lengths}

-- The segments of a plane that are still to be copied, from line `y` on.
pub record Pending (s : PlaneScratch) (y soff : ℕ) (segs : List (List ℕ)) : Type 0 where
  pub rest : List ℕ
  pub left : drop soff s.segbuf ≡ concat segs ++ rest
  pub lengths : drop y s.seglen ≡ seg_lengths segs

pub Pending-next :
    (s : PlaneScratch) (y soff : ℕ) (seg : List ℕ) (segs : List (List ℕ))
    → Pending s y soff (seg ∷ segs)
    → Pending s (y + 1) (soff + length seg) segs
Pending-next s y soff seg segs p = record {
  rest = p.rest;
  left =
      sym (drop_add (length seg) soff s.segbuf)
      ∙ ap (drop (length seg)) (p.left ∙ append_assoc seg (concat segs) p.rest)
      ∙ drop-append_length seg (concat segs ++ p.rest);
  lengths = sym (drop_add 1 y s.seglen) ∙ ap (drop 1) p.lengths;
}

-- The destination is `pre`, a header and `body` behind it, and `tail`.
module _ (s : PlaneScratch) (y soff : ℕ) (seg : List ℕ) (segs : List (List ℕ))
    (p : Pending s y soff (seg ∷ segs)) (k : ℕ) (pre head body tail : List ℕ)
    (field : 2 * k + 1 < length head) (room : length seg ≤ length tail) where
  count : get_or s.seglen y 0 ≡ length seg
  count = get_or-drop s.seglen y 0 ∙ ap (λ t. get_or t 0 0) p.lengths

  copied : take (length seg) (drop soff s.segbuf) ≡ seg
  copied =
      ap (take (length seg)) (p.left ∙ append_assoc seg (concat segs) p.rest)
      ∙ take-append_length seg (concat segs ++ p.rest)

  abbrev marked : List ℕ
  marked = set (set head (2 * k) (length seg % 256)) (2 * k + 1) (length seg / 256 % 256)

  abbrev moved : List ℕ
  moved = (body ++ seg) ++ drop (length seg) tail

  copied_at :
      copy_at (pre ++ (head ++ (body ++ tail))) (length pre + (length head + length body)) seg
      ≡ pre ++ (head ++ moved)
  copied_at =
      let front = pre ++ (head ++ body) in
      let at : length pre + (length head + length body) ≡ length front =
        omega (arith, length-append pre (head ++ body), length-append head body) in
      let whole : pre ++ (head ++ (body ++ tail)) ≡ front ++ tail =
        sym (
          append_assoc pre (head ++ body) tail
          ∙ ap (λ t. pre ++ t) (append_assoc head body tail)) in
      ap₂ (λ t n. copy_at t n seg) whole at
      ∙ copy_at-append front tail seg
      ∙ append_assoc pre (head ++ body) (seg ++ drop (length seg) tail)
      ∙ ap (λ t. pre ++ t)
          (append_assoc head body (seg ++ drop (length seg) tail)
            ∙ ap (λ t. head ++ t) (sym (append_assoc body seg (drop (length seg) tail))))

  stored :
      set
        (set (pre ++ (head ++ moved)) (length pre + 2 * k) (length seg % 256))
        (length pre + 2 * k + 1)
        (length seg / 256 % 256)
      ≡ pre ++ (marked ++ moved)
  stored =
      let a = length seg % 256 in
      let b = length seg / 256 % 256 in
      let e : length pre + 2 * k + 1 ≡ length pre + (2 * k + 1) = omega arith in
      let once = set head (2 * k) a in
      ap (λ t. set t (length pre + 2 * k + 1) b)
        (set-append pre (head ++ moved) (2 * k) a
          ∙ ap (λ t. pre ++ t) (set-front head moved (2 * k) a (omega (arith, field))))
      ∙ ap (λ n. set (pre ++ (once ++ moved)) n b) e
      ∙ set-append pre (once ++ moved) (2 * k + 1) b
      ∙ ap (λ t. pre ++ t)
          (set-front once moved (2 * k + 1) b (omega (arith, field, length-set head (2 * k) a)))

  -- The segment is copied behind the others and its length is stored in the header.
  pub put_segment_lem :
      (dst : List ℕ) (hdr csize : ℕ)
      → dst ≡ pre ++ (head ++ (body ++ tail))
      → hdr ≡ length pre
      → csize ≡ length pre + (length head + length body)
      → put_segment s k y soff hdr dst csize
        ≡ some (pre ++ (marked ++ moved), csize + length seg, soff + length seg)
  unfolding put_segment
  put_segment_lem dst hdr csize whole start at =
      let total : length dst ≡ csize + length tail = omega (
        arith,
        ap length whole,
        length-append pre (head ++ (body ++ tail)),
        length-append head (body ++ tail),
        length-append body tail,
        at,
      ) in
      let fits : ltb (length dst) (csize + length seg) ≡ false =
        le→ltb-false _ _ (omega (arith, total, room)) in
      let result : set (set (copy_at dst csize seg) (hdr + 2 * k) (length seg % 256))
            (hdr + 2 * k + 1) (length seg / 256 % 256)
          ≡ pre ++ (marked ++ moved) =
        rw (whole, start, at, copied_at) stored in
      rw (count, fits, copied) (ap (λ t. some (t, csize + length seg, soff + length seg)) result)
