-- ===== src/Nlc/Frame.antt =====
-- internal/groovy/nlc/encode.go and decode.go: a frame of RGB888 bytes as a stream of line records.
-- `Params` holds numbers that are not negative. The three planes are encoded by goroutines that
-- share nothing but the source, so their order does not matter.
pub mod Segment
pub mod Line
pub mod Source
pub mod Plane
pub mod Assemble
pub mod Records
pub mod Decode
pub mod Shape
pub mod Lines
pub mod Encode
pub mod RoundTrip
pub mod Reuse
use mi_ster_groovy_relay.Prelude.{
  ℕ, zero, suc, ◌+◌, ◌-◌, ◌*◌, ◌/◌, ◌%◌, ◌^◌, Bool, true, false, not, ◌||◌, Option, none, some,
  List, [], ◌++◌, ltb, ◌==◌, if◌then◌else◌, length, set, get_or, take, drop, replicate,
}
use Prim.Native.Nat.{bit_or}
use mi_ster_groovy_relay.Prelude.Result.{Result, ok, err}
use mi_ster_groovy_relay.Prelude.Slices.{copy_at}
use mi_ster_groovy_relay.Prelude.Int.{ℤ, pos}
use mi_ster_groovy_relay.Nlc.Colour.{plane_range}
use mi_ster_groovy_relay.Nlc.Planes.{bpp, to_plane_line, combine_line}
use mi_ster_groovy_relay.Nlc.Dpcm.{line_encode, line_decode}
use mi_ster_groovy_relay.Nlc.BitIo.{BitW, init_w, finish, BitR, init_r}
use mi_ster_groovy_relay.Nlc.Pack.{
  pack_line_tiled, pack_line_rice, unpack_line_tiled, unpack_line_rice,
}

pub data Pack : Type 0 where
  pack_tiled : Pack
  pack_rice : Pack

pub record Params : Type 0 where
  pub width : ℕ
  pub height : ℕ
  pub near : ℕ
  pub pack : Pack

abbrev pub max_width : ℕ
max_width = 4096

abbrev pub max_height : ℕ
max_height = 2048

abbrev pub header_bytes : ℕ
header_bytes = 8

-- `outside` is no error of the source: it stands for an index or a slice that reaches past the end of
-- its input, where Go panics or reads what is behind the input.
pub data CodecError : Type 0 where
  bad_dimensions : CodecError
  bad_near : CodecError
  src_size : CodecError
  dst_too_small : CodecError
  overflow : CodecError
  dst_size : CodecError
  truncated_header : CodecError
  truncated_segment : CodecError
  corrupt_segment : CodecError
  trailing_bytes : CodecError
  outside : CodecError

-- The error, if any. Every value of `Pack` is known.
unfoldable pub validate : Params → Option CodecError
validate p =
    if (p.width == 0 || p.height == 0) || (ltb max_width p.width || ltb max_height p.height)
    then some bad_dimensions
    else if ltb 3 p.near
    then some bad_near
    else none

unfoldable pub frame_bytes : Params → ℕ
frame_bytes p = p.width * p.height * bpp

unfoldable pub max_encoded_size : Params → ℕ
unfolding frame_bytes
max_encoded_size p = 2 * frame_bytes p + p.width * p.height + p.height * 40 + 1024

-- `t`, `ul` and `cur` are written in full before they are read, and are left out.
pub record PlaneScratch : Type 0 where
  pub prev : List ℤ
  pub segbuf : List ℕ
  pub seglen : List ℕ
  pub ovf : Bool

pub record Encoder : Type 0 where
  pub params : Params
  pub max_size : ℕ
  pub plane_y : PlaneScratch
  pub plane_co : PlaneScratch
  pub plane_cg : PlaneScratch

abbrev pub new_scratch : Params → PlaneScratch
new_scratch p = record {
  prev = replicate p.width (pos 0);
  segbuf = replicate (max_encoded_size p) 0;
  seglen = replicate p.height 0;
  ovf = false;
}

unfoldable pub new_encoder : Params → Result CodecError Encoder
unfolding validate max_encoded_size
new_encoder p = elim (validate p) [
  | some e ↦ err e
  | none ↦ ok (record {
    params = p;
    max_size = max_encoded_size p;
    plane_y = new_scratch p;
    plane_co = new_scratch p;
    plane_cg = new_scratch p;
  })
]

abbrev pub pack_line : Pack → BitW → List ℕ → BitW
pack_line pack_tiled bw u = pack_line_tiled bw u
pack_line pack_rice bw u = pack_line_rice bw u

abbrev pub unpack_line : Pack → BitR → ℕ → List ℕ × BitR
unpack_line pack_tiled br w = unpack_line_tiled br w
unpack_line pack_rice br w = unpack_line_rice br w

-- `src[y*W*bpp:(y+1)*W*bpp]`
abbrev pub row_at : Params → List ℕ → ℕ → List ℕ
row_at p src y = take (p.width * bpp) (drop (y * (p.width * bpp)) src)

-- `(8 - (seg & 7)) & 7`
abbrev pub padding_of : ℕ → ℕ
padding_of seg = (8 - seg % 8) % 8

-- What a line leaves of the scratch and of the offset into `segbuf`; `stop` is the `break`.
pub record LineResult : Type 0 where
  pub scratch : PlaneScratch
  pub off : ℕ
  pub stop : Bool

-- The rest of a line from its residuals on. The writer's slice is the part of `segbuf` from `off` on.
unfoldable pub store_line : Pack → ℕ → PlaneScratch → ℕ → List ℤ → List ℕ → LineResult
store_line pack y s off cur u =
    let capacity = length s.segbuf in
    let bw = finish (pack_line pack (init_w (drop off s.segbuf)) u) in
    let seg = bw.n in
    let pad = padding_of seg in
    let segbuf = take off s.segbuf ++ bw.buf in
    if bw.ovf || (ltb 65535 (seg + pad) || ltb capacity (off + seg + pad))
    then record { scratch = record s { segbuf = segbuf; ovf = true }; off = off; stop = true }
    else record {
      scratch = record s {
        prev = cur;
        segbuf = copy_at segbuf (off + seg) (replicate pad 0);
        seglen = set s.seglen y (seg + pad);
      };
      off = off + (seg + pad);
      stop = false;
    }

unfoldable pub encode_line : Params → ℕ → List ℕ → ℕ → PlaneScratch → ℕ → LineResult
unfolding store_line
encode_line p k row y s off =
    let (lo, hi) = plane_range k in
    let (cur, u) = line_encode (to_plane_line row k) s.prev (ltb 0 y) p.near lo hi in
    store_line p.pack y s off cur u

-- The loop over the lines, of which `rounds` are left.
unfoldable pub encode_lines : Params → ℕ → List ℕ → ℕ → ℕ → PlaneScratch → ℕ → PlaneScratch
unfolding encode_line
encode_lines p k src zero y s off = s
encode_lines p k src (suc rounds) y s off =
    let r = encode_line p k (row_at p src y) y s off in
    let rest = encode_lines p k src rounds (y + 1) r.scratch r.off in
    if r.stop then r.scratch else rest

unfoldable pub encode_plane : Params → ℕ → List ℕ → PlaneScratch → PlaneScratch
unfolding encode_lines
encode_plane p k src s =
    encode_lines p k src p.height 0
      (record s { prev = replicate (length s.prev) (pos 0); ovf = false }) 0

-- The stores of `dst[hdr+2*k]` and the one behind it, and the copy of a segment before them. `none`
-- is an overflow.
unfoldable pub put_segment : PlaneScratch → ℕ → ℕ → ℕ → ℕ → List ℕ → ℕ → Option (List ℕ × ℕ × ℕ)
put_segment s k y soff hdr dst csize =
    let seg = get_or s.seglen y 0 in
    let copied = copy_at dst csize (take seg (drop soff s.segbuf)) in
    if ltb (length dst) (csize + seg)
    then none
    else some (
      set (set copied (hdr + 2 * k) (seg % 256)) (hdr + 2 * k + 1) (seg / 256 % 256),
      csize + seg,
      soff + seg,
    )

-- The record of one line: the header and the three segments.
unfoldable pub put_record : Encoder → ℕ → ℕ → ℕ → ℕ → List ℕ → ℕ → Option (List ℕ × ℕ × ℕ × ℕ × ℕ)
unfolding put_segment
put_record e y soff_y soff_co soff_cg dst hdr =
    let cleared = copy_at dst hdr (replicate header_bytes 0) in
    if ltb (length dst) (hdr + header_bytes)
    then none
    else (elim (put_segment e.plane_y 0 y soff_y hdr cleared (hdr + header_bytes)) [
      | none ↦ none
      | some (dst₁, csize₁, soff_y') ↦ elim (put_segment e.plane_co 1 y soff_co hdr dst₁ csize₁) [
        | none ↦ none
        | some (dst₂, csize₂, soff_co') ↦
            elim (put_segment e.plane_cg 2 y soff_cg hdr dst₂ csize₂) [
              | none ↦ none
              | some (dst₃, csize₃, soff_cg') ↦ some (dst₃, csize₃, soff_y', soff_co', soff_cg')
            ]
      ]
    ])

unfoldable pub put_records : Encoder → ℕ → ℕ → ℕ → ℕ → ℕ → List ℕ → ℕ → Option (List ℕ × ℕ)
unfolding put_record
put_records e zero y soff_y soff_co soff_cg dst csize = some (dst, csize)
put_records e (suc rounds) y soff_y soff_co soff_cg dst csize =
    elim (put_record e y soff_y soff_co soff_cg dst csize) [
      | none ↦ none
      | some (dst', csize', soff_y', soff_co', soff_cg') ↦
          put_records e rounds (y + 1) soff_y' soff_co' soff_cg' dst' csize'
    ]

unfoldable pub assemble : Encoder → List ℕ → Result CodecError (List ℕ × ℕ)
unfolding put_records
assemble e dst =
    if (e.plane_y.ovf || e.plane_co.ovf) || e.plane_cg.ovf
    then err overflow
    else (elim (put_records e e.params.height 0 0 0 0 dst 0) [
      | none ↦ err overflow
      | some r ↦ ok r
    ])

-- The encoder afterwards, and `dst` with the length of the stream in it.
unfoldable pub encode_into : Encoder → List ℕ → List ℕ → Encoder × Result CodecError (List ℕ × ℕ)
unfolding assemble encode_plane frame_bytes
encode_into e dst src =
    let e' : Encoder = record e {
      plane_y = encode_plane e.params 0 src e.plane_y;
      plane_co = encode_plane e.params 1 src e.plane_co;
      plane_cg = encode_plane e.params 2 src e.plane_cg;
    } in
    if not (length src == frame_bytes e.params)
    then (e, err src_size)
    else if ltb (length dst) e.max_size
    then (e, err dst_too_small)
    else (e', assemble e' dst)

-- One plane of a line, with the slice `src[pos:pos+seglen]`: the reconstructed row and the position behind its segment.
unfoldable pub decode_segment :
    Params → ℕ → ℕ → List ℤ → List ℕ → ℕ → ℕ → Result CodecError (List ℤ × ℕ)
decode_segment p k y prev src seglen position =
    let (lo, hi) = plane_range k in
    let (u, br) = unpack_line p.pack (init_r (take seglen (drop position src))) p.width in
    if ltb (length src - position) seglen
    then err truncated_segment
    else if ltb (length src) (position + seglen)
    then err outside
    else if br.overrun
    then err corrupt_segment
    else ok (line_decode u prev (ltb 0 y) p.near lo hi, position + seglen)

-- `int(src[pos+2*k]) | int(src[pos+2*k+1])<<8`
abbrev pub length_at : List ℕ → ℕ → ℕ
length_at src i = bit_or (get_or src i 0) (get_or src (i + 1) 0 * 2 ^ 8)

pub record Rows : Type 0 where
  pub row_y : List ℤ
  pub row_co : List ℤ
  pub row_cg : List ℤ

-- The lengths are read at `position` to `position + 5`.
unfoldable pub decode_line : Params → ℕ → Rows → List ℕ → ℕ → Result CodecError (Rows × ℕ)
unfolding decode_segment
decode_line p y prev src position =
    let len_y = length_at src position in
    let len_co = length_at src (position + 2) in
    let len_cg = length_at src (position + 4) in
    if ltb (length src) (position + header_bytes)
    then err truncated_header
    else if ltb (length src) (position + 6)
    then err outside
    else (elim (decode_segment p 0 y prev.row_y src len_y (position + header_bytes)) [
      | err x ↦ err x
      | ok (cur_y, pos₁) ↦ elim (decode_segment p 1 y prev.row_co src len_co pos₁) [
        | err x ↦ err x
        | ok (cur_co, pos₂) ↦ elim (decode_segment p 2 y prev.row_cg src len_cg pos₂) [
          | err x ↦ err x
          | ok (cur_cg, pos₃) ↦
              ok (record { row_y = cur_y; row_co = cur_co; row_cg = cur_cg }, pos₃)
        ]
      ]
    ])

-- The rows that are written to `dst`, in order.
unfoldable pub decode_lines : Params → ℕ → ℕ → Rows → List ℕ → ℕ → Result CodecError (List ℕ)
unfolding decode_line
decode_lines p zero y prev src position =
    if position == length src then ok [] else err trailing_bytes
decode_lines p (suc rounds) y prev src position = elim (decode_line p y prev src position) [
  | err x ↦ err x
  | ok (cur, position') ↦ elim (decode_lines p rounds (y + 1) cur src position') [
    | err x ↦ err x
    | ok rows ↦ ok (combine_line cur.row_y cur.row_co cur.row_cg ++ rows)
  ]
]

-- What `Decode` leaves in a `dst` of `dst_len` bytes: it writes every one of them.
unfoldable pub decode : ℕ → List ℕ → Params → Result CodecError (List ℕ)
unfolding validate frame_bytes decode_lines
decode dst_len src p =
    let zeros : List ℤ = replicate p.width (pos 0) in
    let rows =
      decode_lines p p.height 0 (record { row_y = zeros; row_co = zeros; row_cg = zeros }) src 0 in
    elim (validate p) [
      | some e ↦ err e
      | none ↦ if not (dst_len == frame_bytes p) then err dst_size else rows
    ]
