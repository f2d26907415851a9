-- ===== src/Nlc/Frame/Shape.antt =====
-- internal/groovy/nlc/decode.go: what the decoder reads and gives for any input.
use mi_ster_groovy_relay.Prelude.{
  ℕ, zero, suc, ◌+◌, ◌*◌, ◌≤◌, ◌≡◌, false, Option, none, some, List, length, take, drop,
  le→ltb-false, le→ltb-false,
}
use mi_ster_groovy_relay.Prelude.Int.{ℤ}
use mi_ster_groovy_relay.Prelude.Result.{Result, ok, err}
use mi_ster_groovy_relay.Nlc.BitIo.{init_r}
use mi_ster_groovy_relay.Nlc.Planes.{bpp}
use mi_ster_groovy_relay.Nlc.Frame.{
  Pack, Params, CodecError, Rows, outside, bad_dimensions, bad_near, src_size, dst_too_small,
  overflow, dst_size, truncated_header, truncated_segment, corrupt_segment, trailing_bytes,
  length_at, unpack_line,
}

abbrev IsReported : CodecError → Type 0
IsReported outside = ⊥
IsReported bad_dimensions = Unit
IsReported bad_near = Unit
IsReported src_size = Unit
IsReported dst_too_small = Unit
IsReported overflow = Unit
IsReported dst_size = Unit
IsReported truncated_header = Unit
IsReported truncated_segment = Unit
IsReported corrupt_segment = Unit
IsReported trailing_bytes = Unit

-- There is an error of the source's, or what is given satisfies `P`.
abbrev pub OnOk : {A : Type 0} → (A → Type 0) → Result CodecError A → Type 0
OnOk P (err x) = IsReported x
OnOk P (ok a) = P a

-- The segment of `n` bytes at `at` lies in the source and codes a line without reading past its end.
pub record IsSegmentAt (p : Params) (src : List ℕ) (at n : ℕ) : Type 0 where
  pub within : at + n ≤ length src
  pub clean : (unpack_line p.pack (init_r (take n (drop at src))) p.width).1.overrun ≡ false

pub record SegmentRead (p : Params) (src : List ℕ) (at n : ℕ) (r : List ℤ × ℕ) : Type 0 where
  pub wide : length r.0 ≡ p.width
  pub next : r.1 ≡ at + n
  pub segment : IsSegmentAt p src at n

-- The rows that a line is decoded from, or to.
abbrev IsWide : Params → Rows → Type 0
IsWide p r = (length r.row_y ≡ p.width) × (length r.row_co ≡ p.width) × (length r.row_cg ≡ p.width)

-- The record at `at`: a header in the source, and the three segments that it announces.
pub record IsRecordAt (p : Params) (src : List ℕ) (at : ℕ) : Type 0 where
  pub header : at + 8 ≤ length src
  pub segment_y : IsSegmentAt p src (at + 8) (length_at src at)
  pub segment_co : IsSegmentAt p src (at + 8 + length_at src at) (length_at src (at + 2))
  pub segment_cg :
      IsSegmentAt p src
        (at + 8 + length_at src at + length_at src (at + 2))
        (length_at src (at + 4))

-- Where the record at `at` ends.
abbrev pub record_end : List ℕ → ℕ → ℕ
record_end src at = at + 8 + length_at src at + length_at src (at + 2) + length_at src (at + 4)

pub record LineRead (p : Params) (src : List ℕ) (at : ℕ) (r : Rows × ℕ) : Type 0 where
  pub wide : IsWide p r.0
  pub next : r.1 ≡ record_end src at
  pub line : IsRecordAt p src at

-- Records up to the end of the source.
abbrev pub IsFramed : Params → List ℕ → ℕ → ℕ → Type 0
IsFramed p src at zero = at ≡ length src
IsFramed p src at (suc rounds) = IsRecordAt p src at × IsFramed p src (record_end src at) rounds

pub record FrameRead (p : Params) (src : List ℕ) (at rounds : ℕ) (rows : List ℕ) : Type 0 where
  pub size : length rows ≡ rounds * (p.width * bpp)
  pub framed : IsFramed p src at rounds

-- A frame of the destination's length, from a source of exactly one record for each line.
pub record Decoded (dst_len : ℕ) (src : List ℕ) (p : Params) (rows : List ℕ) : Type 0 where
  pub size : length rows ≡ dst_len
  pub framed : IsFramed p src 0 p.height

abbrev OnError : Option CodecError → Type 0
OnError none = Unit
OnError (some x) = IsReported x
