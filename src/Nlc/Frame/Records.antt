-- ===== src/Nlc/Frame/Records.antt =====
-- internal/groovy/nlc/encode.go: the record of a line and the stream of a frame.
use mi_ster_groovy_relay.Prelude.{
  ℕ, zero, suc, ◌+◌, ◌-◌, ◌/◌, ◌%◌, ◌≤◌, ◌≡◌, refl, sym, ap, ap₂, ◌∙◌, false, Option, some, List,
  [], ◌∷◌, ◌++◌, append_assoc, arith, ltb, length, length-append, drop, replicate, length-drop,
  le→ltb-false, le→ltb-false,
}
use mi_ster_groovy_relay.Prelude.Slices.{copy_at, copy_at-append}
use mi_ster_groovy_relay.Nlc.Frame.{Encoder, header_bytes, put_record, put_records}
use mi_ster_groovy_relay.Nlc.Frame.Assemble.{Pending, Pending-next, put_segment_lem}

abbrev pub header : List ℕ → List ℕ → List ℕ → List ℕ
header a b c =
    length a % 256
    ∷ length a / 256 % 256
    ∷ length b % 256
    ∷ length b / 256 % 256
    ∷ length c % 256
    ∷ length c / 256 % 256
    ∷ 0
    ∷ 0
    ∷ []

-- The lengths of the segments of the three planes, and the segments.
abbrev pub line_record : List ℕ → List ℕ → List ℕ → List ℕ
line_record a b c = header a b c ++ ((a ++ b) ++ c)

-- The records of the lines; the planes have xs many segments.
abbrev pub stream : List (List ℕ) → List (List ℕ) → List (List ℕ) → List ℕ
stream (a ∷ xs) (b ∷ ys) (c ∷ zs) = line_record a b c ++ stream xs ys zs
stream xs ys zs = []

length-line_record :
    (a b c : List ℕ) → length (line_record a b c) ≡ 8 + length a + length b + length c
length-line_record a b c = omega (arith, length-append (a ++ b) c, length-append a b)

-- The record of line `y`, from the segments that the three planes have next.
module _ (e : Encoder) (y soff_y soff_co soff_cg : ℕ) (a b c : List ℕ) (xs ys zs : List (List ℕ))
    (pa : Pending e.plane_y y soff_y (a ∷ xs)) (pb : Pending e.plane_co y soff_co (b ∷ ys))
    (pc : Pending e.plane_cg y soff_cg (c ∷ zs)) (pre tail : List ℕ)
    (room : length (line_record a b c) ≤ length tail) where
  abbrev tail₀ : List ℕ
  tail₀ = drop header_bytes tail

  abbrev tail₁ : List ℕ
  tail₁ = drop (length a) tail₀

  abbrev tail₂ : List ℕ
  tail₂ = drop (length b) tail₁

  abbrev tail₃ : List ℕ
  tail₃ = drop (length c) tail₂

  sizes :
      (length tail₀ ≡ length tail - 8)
      × (length tail₁ ≡ length tail - 8 - length a)
      × (length tail₂ ≡ length tail - 8 - length a - length b)
      × (length tail₃ ≡ length tail - 8 - length a - length b - length c)
  sizes =
      let n₀ = length-drop header_bytes tail in
      let n₁ = length-drop (length a) tail₀ in
      let n₂ = length-drop (length b) tail₁ in
      let n₃ = length-drop (length c) tail₂ in
      (n₀, omega (arith, n₀, n₁), omega (arith, n₀, n₁, n₂), omega (arith, n₀, n₁, n₂, n₃))

  put_record_lem :
      put_record e y soff_y soff_co soff_cg (pre ++ tail) (length pre)
      ≡ some (
        pre ++ (line_record a b c ++ tail₃),
        length pre + length (line_record a b c),
        soff_y + length a,
        soff_co + length b,
        soff_cg + length c,
      )
  unfolding put_record
  put_record_lem =
      let total = length-line_record a b c in
      let fits : ltb (length (pre ++ tail)) (length pre + header_bytes) ≡ false =
        le→ltb-false _ _ (omega (arith, length-append pre tail, room, total)) in
      let cleared = copy_at (pre ++ tail) (length pre) (replicate header_bytes 0) in
      let start = length pre + header_bytes in
      let head₁ : List ℕ = length a % 256 ∷ length a / 256 % 256 ∷ 0 ∷ 0 ∷ 0 ∷ 0 ∷ 0 ∷ 0 ∷ [] in
      let head₂ : List ℕ =
        length a % 256
        ∷ length a / 256 % 256
        ∷ length b % 256
        ∷ length b / 256 % 256
        ∷ 0
        ∷ 0
        ∷ 0
        ∷ 0
        ∷ [] in
      let e₁ =
        put_segment_lem e.plane_y y soff_y a xs pa 0 pre (replicate header_bytes 0) [] tail₀
          (omega arith) (omega (arith, sizes, room, total)) cleared (length pre) start
          (copy_at-append pre tail (replicate header_bytes 0)) refl (omega arith) in
      let e₂ =
        put_segment_lem e.plane_co y soff_co b ys pb 1 pre head₁ a tail₁ (omega arith)
          (omega (arith, sizes, room, total)) (pre ++ (head₁ ++ (a ++ tail₁))) (length pre)
          (start + length a) refl refl (omega arith) in
      let e₃ =
        put_segment_lem e.plane_cg y soff_cg c zs pc 2 pre head₂ (a ++ b) tail₂ (omega arith)
          (omega (arith, sizes, room, total)) (pre ++ (head₂ ++ ((a ++ b) ++ tail₂))) (length pre)
          (start + length a + length b) refl refl (omega (arith, length-append a b)) in
      let n : start + length a + length b + length c ≡ length pre + length (line_record a b c) =
        omega (arith, total) in
      rw (fits, e₁, e₂, e₃, n) refl

-- The records of the lines from `y` on, behind `pre`.
pub record Put (e : Encoder) (rounds y soff_y soff_co soff_cg : ℕ) (pre tail out : List ℕ)
    : Type 0 where
  pub rest : List ℕ
  pub eq :
      put_records e rounds y soff_y soff_co soff_cg (pre ++ tail) (length pre)
      ≡ some (pre ++ (out ++ rest), length pre + length out)

joined :
    (pre one more rest : List ℕ)
    → let before : Option (List ℕ × ℕ) =
        some ((pre ++ one) ++ (more ++ rest), length (pre ++ one) + length more) in
      before ≡ some (pre ++ ((one ++ more) ++ rest), length pre + length (one ++ more))
joined pre one more rest =
    ap₂ (λ t n. some (t, n))
      (append_assoc pre one (more ++ rest) ∙ ap (λ t. pre ++ t) (sym (append_assoc one more rest)))
      (omega (arith, length-append pre one, length-append one more))

put_records-suc :
    (e : Encoder) (rounds y soff_y soff_co soff_cg : ℕ) (dst : List ℕ) (csize : ℕ)
    (r : List ℕ × ℕ × ℕ × ℕ × ℕ)
    → put_record e y soff_y soff_co soff_cg dst csize ≡ some r
    → put_records e (suc rounds) y soff_y soff_co soff_cg dst csize
      ≡ put_records e rounds (y + 1) r.2 r.3 r.4 r.0 r.1
unfolding put_records
put_records-suc e rounds y soff_y soff_co soff_cg dst csize r h = rw (put_records, h) refl

pub put_records-Put :
    (e : Encoder) (rounds y soff_y soff_co soff_cg : ℕ) (xs ys zs : List (List ℕ))
    → Pending e.plane_y y soff_y xs
    → Pending e.plane_co y soff_co ys
    → Pending e.plane_cg y soff_cg zs
    → length xs ≡ rounds
    → length ys ≡ rounds
    → length zs ≡ rounds
    → (pre tail : List ℕ) → length (stream xs ys zs) ≤ length tail
    → Put e rounds y soff_y soff_co soff_cg pre tail (stream xs ys zs)
unfolding put_records
put_records-Put e zero y soff_y soff_co soff_cg [] [] [] pa pb pc la lb lc pre tail room = record {
  rest = tail;
  eq = ap (λ n. some (pre ++ tail, n)) (omega arith);
}
put_records-Put e zero y soff_y soff_co soff_cg [] [] (c ∷ zs) pa pb pc la lb lc pre tail room =
    absurd (omega (arith, la, lb, lc))
put_records-Put e zero y soff_y soff_co soff_cg [] (b ∷ ys) zs pa pb pc la lb lc pre tail room =
    absurd (omega (arith, la, lb, lc))
put_records-Put e zero y soff_y soff_co soff_cg (a ∷ xs) ys zs pa pb pc la lb lc pre tail room =
    absurd (omega (arith, la, lb, lc))
put_records-Put e (suc rounds) y soff_y soff_co soff_cg [] ys zs pa pb pc la lb lc pre tail room =
    absurd (omega (arith, la, lb, lc))
put_records-Put e (suc rounds) y soff_y soff_co soff_cg (a ∷ xs) [] zs pa pb pc la lb lc pre tail
      room =
    absurd (omega (arith, la, lb, lc))
put_records-Put e (suc rounds) y soff_y soff_co soff_cg (a ∷ xs) (b ∷ ys) [] pa pb pc la lb lc pre
      tail room =
    absurd (omega (arith, la, lb, lc))
put_records-Put e (suc rounds) y soff_y soff_co soff_cg (a ∷ xs) (b ∷ ys) (c ∷ zs) pa pb pc la lb lc
      pre tail room =
    let one = line_record a b c in
    let more = stream xs ys zs in
    let total = length-append one more in
    let rest_of : List ℕ → ℕ → Option (List ℕ × ℕ) = λ t n.
      put_records e rounds (y + 1) (soff_y + length a) (soff_co + length b) (soff_cg + length c) t
        n in
    let rest = drop (length c) (drop (length b) (drop (length a) (drop header_bytes tail))) in
    let first =
      put_record_lem e y soff_y soff_co soff_cg a b c xs ys zs pa pb pc pre tail
        (omega (arith, total, room)) in
    let next =
      put_records-Put e rounds (y + 1) (soff_y + length a) (soff_co + length b) (soff_cg + length c)
        xs ys zs (Pending-next e.plane_y y soff_y a xs pa)
        (Pending-next e.plane_co y soff_co b ys pb) (Pending-next e.plane_cg y soff_cg c zs pc)
        (omega (arith, la)) (omega (arith, lb)) (omega (arith, lc)) (pre ++ one) rest
        (omega (
          arith,
          total,
          room,
          length-line_record a b c,
          sizes e y soff_y soff_co soff_cg a b c xs ys zs pa pb pc pre tail
              (omega (arith, total, room)),
        )) in
    record {
      rest = next.rest;
      eq =
          put_records-suc e rounds y soff_y soff_co soff_cg (pre ++ tail) (length pre) _ first
          ∙ ap₂ (λ t n. rest_of t n) (sym (append_assoc pre one rest)) (sym (length-append pre one))
          ∙ next.eq
          ∙ joined pre one more next.rest;
    }
