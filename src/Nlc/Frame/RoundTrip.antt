-- ===== src/Nlc/Frame/RoundTrip.antt =====
-- internal/groovy/nlc/encode.go and decode.go: a frame that is encoded and decoded.
use mi_ster_groovy_relay.Prelude.{
  ℕ, ◌*◌, ◌≤◌, ◌≡◌, refl, ap, ◌∙◌, inl, inr, true, none, List, [], arith, ltb, ◌==◌, ==_iff,
  Bool-cases, length, take, drop, ltb-false→le, take-append_length,
}
use mi_ster_groovy_relay.Prelude.Result.{Result, ok, err}
use mi_ster_groovy_relay.Nlc.BitIo.View.{AllBytes}
use mi_ster_groovy_relay.Nlc.Planes.{bpp}
use mi_ster_groovy_relay.Nlc.Frame.{
  Params, CodecError, Encoder, Rows, validate, frame_bytes, max_encoded_size, encode_into,
  decode_lines, decode,
}
use mi_ster_groovy_relay.Nlc.Frame.Source.{IsSource, zeros-IsPlaneRow}
use mi_ster_groovy_relay.Nlc.Frame.Plane.{first_row}
use mi_ster_groovy_relay.Nlc.Frame.Records.{stream}
use mi_ster_groovy_relay.Nlc.Frame.Decode.{IsRows, reconstruct}
use mi_ster_groovy_relay.Nlc.Frame.Lines.{decode_lines_lem, reconstruct_lossless}
use mi_ster_groovy_relay.Nlc.Frame.Encode.{
  IsEncoder, Sent, coded-IsEncoder, IsSource-frame, encode_into-Sent,
}

abbrev pub first_rows : Params → Rows
first_rows p = record { row_y = first_row p; row_co = first_row p; row_cg = first_row p }

-- What the encoder's closed loop makes of a whole frame.
abbrev pub reconstruct_frame : Params → List ℕ → List ℕ
reconstruct_frame p src = reconstruct p src p.height 0 (first_rows p)

abbrev pub receive : Params → Result CodecError (List ℕ × ℕ) → Result CodecError (List ℕ)
receive p (err x) = err x
receive p (ok (out, n)) = decode (frame_bytes p) (take n out) p

-- A frame that is encoded into `dst`, and the stream of it decoded into a frame of the same size.
abbrev pub relay : Encoder → List ℕ → List ℕ → Result CodecError (List ℕ)
relay e dst src = receive e.params (encode_into e dst src).1

first_rows-IsRows : (p : Params) → IsRows p (first_rows p)
first_rows-IsRows p = (zeros-IsPlaneRow p 0, zeros-IsPlaneRow p 1, zeros-IsPlaneRow p 2)

decode_lem :
    (p : Params) (src rows : List ℕ)
    → validate p ≡ none
    → decode_lines p p.height 0 (first_rows p) src 0 ≡ ok rows
    → decode (frame_bytes p) src p ≡ ok rows
unfolding decode
decode_lem p src rows v h =
    let n : (frame_bytes p == frame_bytes p) ≡ true = (==_iff _ _).1 refl in
    rw (decode, v, n, h) refl

received_lem :
    (e : Encoder) (dst src : List ℕ) (r : Encoder × Result CodecError (List ℕ × ℕ))
    → IsEncoder e
    → IsSource e.params src
    → Sent e dst src r
    → receive e.params r.1 ≡ ok (reconstruct_frame e.params src)
received_lem e dst src r i h s =
    let out = stream s.xs s.ys s.zs in
    ap (receive e.params) s.result
    ∙ ap (λ t. decode (frame_bytes e.params) t e.params) (take-append_length out s.rest)
    ∙ decode_lem e.params out (reconstruct_frame e.params src) i.valid (
        decode_lines_lem e.params src h e.params.height 0 (first_rows e.params) [] s.xs s.ys s.zs
          (omega arith) (first_rows-IsRows e.params) s.lines_y s.lines_co s.lines_cg)

-- Under the same conditions as the round trip at level 0, but at every valid level: decoding the
-- stream gives exactly the frame that the encoder's closed loop reconstructed, which is defined on
-- the rows alone, without segments or records.
pub relay_reconstruct :
    (e : Encoder) (dst src : List ℕ)
    → IsEncoder e
    → length src ≡ frame_bytes e.params
    → AllBytes src
    → e.max_size ≤ length dst
    → relay e dst src ≡ ok (reconstruct_frame e.params src)
relay_reconstruct e dst src i n b room =
    let h = IsSource-frame e.params src i.valid n b in
    received_lem e dst src (encode_into e dst src) i h (encode_into-Sent e dst src i h room)

-- An encoder between frames (its parameters are valid and the scratch of its planes has its sizes)
-- at level 0, a source of bytes that fills the frame, and a destination of at least `max_size`: the
-- frame is encoded without an error, and decoding the stream gives the source.
pub relay_lossless :
    (e : Encoder) (dst src : List ℕ)
    → IsEncoder e
    → e.params.near ≡ 0
    → length src ≡ frame_bytes e.params
    → AllBytes src
    → e.max_size ≤ length dst
    → relay e dst src ≡ ok src
relay_lossless e dst src i z n b room =
    let h = IsSource-frame e.params src i.valid n b in
    let whole : 0 * (e.params.width * bpp) ≡ 0 = grind arith in
    relay_reconstruct e dst src i n b room
    ∙ ap ok (
        reconstruct_lossless e.params src h e.params.height 0 (first_rows e.params) z (omega arith)
          (first_rows-IsRows e.params)
        ∙ ap (λ k. drop k src) whole)

pub encode_into-IsEncoder :
    (e : Encoder) (dst src : List ℕ)
    → IsEncoder e
    → AllBytes src
    → IsEncoder (encode_into e dst src).0
unfolding encode_into
encode_into-IsEncoder e dst src i b = elim (Bool-cases (length src == frame_bytes e.params)) [
  | inr wrong ↦ rw wrong i
  | inl right ↦ elim (Bool-cases (ltb (length dst) e.max_size)) [
    | inl small ↦ rw (right, small) i
    | inr large ↦
        let h = IsSource-frame e.params src i.valid ((==_iff _ _).0 right) b in
        rw (right, large) (coded-IsEncoder e dst src i h (ltb-false→le _ _ large))
  ]
]

-- A stream of at most `m` bytes, and no error.
abbrev pub IsStream : ℕ → Result CodecError (List ℕ × ℕ) → Type 0
IsStream m (err x) = ⊥
IsStream m (ok (out, n)) = n ≤ m

-- For an encoder between frames, a source of bytes that fills the frame and a destination of at
-- least `max_size`, there is no error, an overflow included, and the stream takes at most
-- `MaxEncodedSize` bytes.
pub encode_into_bound :
    (e : Encoder) (dst src : List ℕ)
    → IsEncoder e
    → length src ≡ frame_bytes e.params
    → AllBytes src
    → e.max_size ≤ length dst
    → IsStream (max_encoded_size e.params) (encode_into e dst src).1
encode_into_bound e dst src i n b room =
    let h = IsSource-frame e.params src i.valid n b in
    let s = encode_into-Sent e dst src i h room in rw s.result (omega (arith, s.short, i.cap))
