-- ===== src/Nlc/Frame/Encode.antt =====
-- internal/groovy/nlc/encode.go: an encoder and a whole frame.
use mathlib.Core.Path.{subst}
use mi_ster_groovy_relay.Prelude.{
  ℕ, zero, suc, ◌+◌, ◌*◌, ◌≤◌, ◌≡◌, refl, ap, inl, inr, true, false, none, List, [], ◌∷◌, ◌++◌,
  arith, ltb, ◌==◌, ==_iff, Option-cases, length, length-append, length-replicate, le→ltb-false,
  le→ltb-false,
}
use mi_ster_groovy_relay.Prelude.Int.{ℤ, pos}
use mi_ster_groovy_relay.Prelude.Result.{Result, ok, err}
use mi_ster_groovy_relay.Nlc.BitIo.View.{AllBytes}
use mi_ster_groovy_relay.Nlc.BitIo.Bytes.{zeros-AllBytes}
use mi_ster_groovy_relay.Nlc.Frame.{
  Params, CodecError, PlaneScratch, Encoder, max_width, max_height, validate, frame_bytes,
  max_encoded_size, new_scratch, new_encoder, encode_plane, assemble, encode_into,
}
use mi_ster_groovy_relay.Nlc.Frame.Line.{line_room}
use mi_ster_groovy_relay.Nlc.Frame.Source.{IsSource}
use mi_ster_groovy_relay.Nlc.Frame.Plane.{
  Lines, IsScratch, first_row, Planed, encode_plane-Planed, length-Lines,
}
use mi_ster_groovy_relay.Nlc.Frame.Assemble.{Pending}
use mi_ster_groovy_relay.Nlc.Frame.Records.{line_record, stream, Put, put_records-Put}

validate_bounds :
    (p : Params)
    → validate p ≡ none
    → (p.width ≤ max_width) × (p.height ≤ max_height) × (p.near ≤ 3)
unfolding validate
validate_bounds p h = (ground arith, ground arith, ground arith)

-- An encoder between frames.
pub record IsEncoder (e : Encoder) : Type 0 where
  pub valid : validate e.params ≡ none
  pub cap : e.max_size ≡ max_encoded_size e.params
  pub ready_y : IsScratch e.params e.plane_y
  pub ready_co : IsScratch e.params e.plane_co
  pub ready_cg : IsScratch e.params e.plane_cg

room_lem : (p : Params) → p.height * line_room p.width ≤ max_encoded_size p
unfolding max_encoded_size frame_bytes
room_lem p = grind arith

new_scratch-IsScratch : (p : Params) → IsScratch p (new_scratch p)
new_scratch-IsScratch p = (
  length-replicate p.width (pos 0),
  length-replicate p.height 0,
  omega (arith, length-replicate {A = ℕ} (max_encoded_size p) 0, room_lem p),
  zeros-AllBytes (max_encoded_size p),
)

abbrev fresh : Params → Encoder
fresh p = record {
  params = p;
  max_size = max_encoded_size p;
  plane_y = new_scratch p;
  plane_co = new_scratch p;
  plane_cg = new_scratch p;
}

fresh-IsEncoder : (p : Params) → validate p ≡ none → IsEncoder (fresh p)
fresh-IsEncoder p v = record {
  valid = v;
  cap = refl;
  ready_y = new_scratch-IsScratch p;
  ready_co = new_scratch-IsScratch p;
  ready_cg = new_scratch-IsScratch p;
}

-- A new encoder is ready for a frame.
pub new_encoder-IsEncoder : (p : Params) (e : Encoder) → new_encoder p ≡ ok e → IsEncoder e
unfolding new_encoder
new_encoder-IsEncoder p e h = elim (Option-cases (validate p)) [
  | inl v ↦
      let made : Result CodecError Encoder = ok (fresh p) in
      let q : made ≡ ok e = rw (new_encoder, v) at h in
      let same : fresh p ≡ e = cc in subst IsEncoder same (fresh-IsEncoder p v)
  | inr (x, v) ↦
      let refused : Result CodecError Encoder = err x in
      absurd (let q : refused ≡ ok e = rw (new_encoder, v) at h in cc)
]

-- The bytes that a line may need in the stream.
abbrev line_cap : ℕ → ℕ
line_cap w = 7 * w + 40

pub IsSource-frame :
    (p : Params) (src : List ℕ)
    → validate p ≡ none
    → length src ≡ frame_bytes p
    → AllBytes src
    → IsSource p src
unfolding frame_bytes
IsSource-frame p src v n b =
    let (narrow, low, gentle) = validate_bounds p v in
    record { narrow = narrow; gentle = gentle; size = grind arith; bytes = b }

-- Segments of the closed loop for the rows from `y` on, in a stream.
length-stream :
    (p : Params) (src : List ℕ) (rounds y : ℕ) (ry ro rg : List ℤ) (xs ys zs : List (List ℕ))
    → Lines p 0 src rounds y ry xs
    → Lines p 1 src rounds y ro ys
    → Lines p 2 src rounds y rg zs
    → length (stream xs ys zs) ≤ rounds * line_cap p.width
length-stream p src zero y ry ro rg xs ys zs lx ly lz = rw lx (omega arith)
length-stream p src (suc rounds) y ry ro rg [] ys zs lx ly lz = elim lx [ ]
length-stream p src (suc rounds) y ry ro rg (a ∷ xs) [] zs lx ly lz = elim ly [ ]
length-stream p src (suc rounds) y ry ro rg (a ∷ xs) (b ∷ ys) [] lx ly lz = elim lz [ ]
length-stream p src (suc rounds) y ry ro rg (a ∷ xs) (b ∷ ys) (c ∷ zs) (ca, na, lx) (cb, nb, ly)
      (cg, nc, lz) =
    let one : suc rounds * line_cap p.width ≡ line_cap p.width + rounds * line_cap p.width =
      grind arith in
    omega (
      arith,
      one,
      na,
      nb,
      nc,
      length-append (line_record a b c) (stream xs ys zs),
      length-append (a ++ b) c,
      length-append a b,
      length-stream p src rounds (y + 1) _ _ _ xs ys zs lx ly lz,
    )

stream_room : (p : Params) → p.height * line_cap p.width ≤ max_encoded_size p
unfolding max_encoded_size frame_bytes
stream_room p = grind arith

-- A frame that is encoded: the records of the closed loop's lines, in at most `max_size` bytes.
pub record Sent (e : Encoder) (dst src : List ℕ) (r : Encoder × Result CodecError (List ℕ × ℕ))
    : Type 0 where
  pub xs : List (List ℕ)
  pub ys : List (List ℕ)
  pub zs : List (List ℕ)
  pub lines_y : Lines e.params 0 src e.params.height 0 (first_row e.params) xs
  pub lines_co : Lines e.params 1 src e.params.height 0 (first_row e.params) ys
  pub lines_cg : Lines e.params 2 src e.params.height 0 (first_row e.params) zs
  pub rest : List ℕ
  pub result : r.1 ≡ ok (stream xs ys zs ++ rest, length (stream xs ys zs))
  pub short : length (stream xs ys zs) ≤ e.max_size
  pub again : IsEncoder r.0

Planed-Pending :
    (p : Params) (k : ℕ) (src : List ℕ) (h : IsSource p src) (s : PlaneScratch)
    → (t : Planed p k src h s) → Pending s 0 0 t.segs
Planed-Pending p k src h s t = record { rest = t.rest; left = t.holds; lengths = t.lengths }

module _ (e : Encoder) (dst src : List ℕ) (i : IsEncoder e) (h : IsSource e.params src)
    (room : e.max_size ≤ length dst) where
  abbrev coded : Encoder
  coded = record e {
    plane_y = encode_plane e.params 0 src e.plane_y;
    plane_co = encode_plane e.params 1 src e.plane_co;
    plane_cg = encode_plane e.params 2 src e.plane_cg;
  }

  abbrev y : Planed e.params 0 src h coded.plane_y
  y = encode_plane-Planed e.params 0 src h e.plane_y i.ready_y

  abbrev co : Planed e.params 1 src h coded.plane_co
  co = encode_plane-Planed e.params 1 src h e.plane_co i.ready_co

  abbrev cg : Planed e.params 2 src h coded.plane_cg
  cg = encode_plane-Planed e.params 2 src h e.plane_cg i.ready_cg

  abbrev out : List ℕ
  out = stream y.segs co.segs cg.segs

  short : length out ≤ e.max_size
  short = omega (
    arith,
    i.cap,
    stream_room e.params,
    length-stream e.params src e.params.height 0 _ _ _ y.segs co.segs cg.segs y.lines co.lines
        cg.lines,
  )

  pub coded-IsEncoder : IsEncoder coded
  coded-IsEncoder = record {
    valid = i.valid;
    cap = i.cap;
    ready_y = y.again;
    ready_co = co.again;
    ready_cg = cg.again;
  }

  lines :
      {k : ℕ} (s : PlaneScratch) (t : Planed e.params k src h s) → length t.segs ≡ e.params.height
  lines {k} s t =
      length-Lines e.params k src h e.params.height 0 (first_row e.params) t.segs t.lines

  assemble_lem : Put coded e.params.height 0 0 0 0 [] dst out
  assemble_lem =
      put_records-Put coded e.params.height 0 0 0 0 y.segs co.segs cg.segs
        (Planed-Pending e.params 0 src h coded.plane_y y)
        (Planed-Pending e.params 1 src h coded.plane_co co)
        (Planed-Pending e.params 2 src h coded.plane_cg cg) (lines coded.plane_y y)
        (lines coded.plane_co co) (lines coded.plane_cg cg) [] dst (omega (arith, short, room))

  assembled : assemble coded dst ≡ ok (out ++ assemble_lem.rest, length out)
  unfolding assemble
  assembled =
      rw (y.ovf, co.ovf, cg.ovf, assemble_lem.eq)
        (ap (λ n. ok (out ++ assemble_lem.rest, n)) (omega arith))

  -- A source of bytes of a valid size is encoded, and the encoder is ready for the next.
  pub encode_into-Sent : Sent e dst src (encode_into e dst src)
  unfolding encode_into
  encode_into-Sent =
      let n : (length src == frame_bytes e.params) ≡ true =
        (==_iff _ _).1 (unfold frame_bytes in grind (arith, h.size)) in
      let fits : ltb (length dst) e.max_size ≡ false = le→ltb-false _ _ room in
      rw (n, fits)
        (record {
          xs = y.segs;
          ys = co.segs;
          zs = cg.segs;
          lines_y = y.lines;
          lines_co = co.lines;
          lines_cg = cg.lines;
          rest = assemble_lem.rest;
          result = assembled;
          short = short;
          again = coded-IsEncoder;
        })
