-- ===== src/Nlc/Tests.antt =====
-- internal/groovy/nlc/codec.go: the theorems at small values.
use mi_ster_groovy_relay.Prelude.{
  ℕ, ◌*◌, ◌≤◌, ◌≡◌, refl, true, false, List, [], ◌∷◌, arith, length, take, replicate,
  length-replicate,
}
use mi_ster_groovy_relay.Prelude.Int.{pos, ℤ}
use mi_ster_groovy_relay.Nlc.Colour.{rgb_to_ycocg, ycocg_to_rgb}
use mi_ster_groovy_relay.Nlc.Colour.Laws.{ycocg_to_rgb-rgb_to_ycocg}
use mi_ster_groovy_relay.Nlc.Dpcm.{line_encode, line_decode}
use mi_ster_groovy_relay.Nlc.Dpcm.Loop.{
  AllWithin, AllNear, line_decode-line_encode, line_decode-line_encode_lossless,
}
use mi_ster_groovy_relay.Nlc.BitIo.{BitW, init_w, put, finish, BitR, init_r, get}
use mi_ster_groovy_relay.Nlc.BitIo.View.{IsReady, written}
use mi_ster_groovy_relay.Nlc.BitIo.Write.{Took, put-Took}
use mi_ster_groovy_relay.Nlc.BitIo.Read.{Gave, IsLoaded, get-Gave}
use mi_ster_groovy_relay.Nlc.BitIo.Finish.{IsSegment, finish-IsSegment}
use mi_ster_groovy_relay.Nlc.Pack.{
  pack_line_rice, unpack_line_rice, rice_k_for_tile, tile_width, bitlen, pack_line_tiled,
  unpack_line_tiled,
}
use mi_ster_groovy_relay.Nlc.Pack.Format.{rice_tile_bits, rice_bits, line_bits, tiled_bits}
use mi_ster_groovy_relay.Nlc.Pack.RoundTrip.{
  unpack_line_rice-pack_line_rice, unpack_line_tiled-pack_line_tiled,
}
use mi_ster_groovy_relay.Prelude.Bits.{bits}
use mi_ster_groovy_relay.Prelude.Result.{ok}
use mi_ster_groovy_relay.Nlc.Frame.{
  Params, Encoder, pack_rice, max_encoded_size, frame_bytes, new_scratch, new_encoder, validate,
  encode_into,
}
use mi_ster_groovy_relay.Nlc.Frame.Encode.{IsEncoder, new_encoder-IsEncoder}
use mi_ster_groovy_relay.Nlc.Frame.Reuse.{after, relay_reconstruct_again}
use mi_ster_groovy_relay.Nlc.Frame.RoundTrip.{
  relay, relay_lossless, relay_reconstruct, reconstruct_frame, IsStream, encode_into_bound,
}

ycocg_to_rgb-rgb_to_ycocg_example :
    let (y, co, cg) = rgb_to_ycocg (pos 10) (pos 200) (pos 30) in
    ycocg_to_rgb y co cg ≡ (pos 10, pos 200, pos 30)
ycocg_to_rgb-rgb_to_ycocg_example = ycocg_to_rgb-rgb_to_ycocg (pos 10) (pos 200) (pos 30)

abbrev row : List ℤ
row = pos 7 ∷ pos 9 ∷ []

abbrev above : List ℤ
above = pos 5 ∷ pos 255 ∷ []

line_decode-line_encode_example :
    let (cur, u) = line_encode row above true 2 (pos 0) (pos 255) in
    (line_decode u above true 2 (pos 0) (pos 255) ≡ cur)
    × AllWithin (pos 0) (pos 255) cur
    × AllNear 2 row cur
line_decode-line_encode_example =
    line_decode-line_encode (pos 0) (pos 255) 2 true row above (omega arith) (omega arith) refl
      (omega arith) (omega arith)

line_decode-line_encode_lossless_example :
    line_decode (line_encode row above true 0 (pos 0) (pos 255)).1 above true 0 (pos 0) (pos 255)
    ≡ row
line_decode-line_encode_lossless_example =
    line_decode-line_encode_lossless (pos 0) (pos 255) true row above (omega arith) refl
      (omega arith) (omega arith)

abbrev buffer : List ℕ
buffer = 0 ∷ 9 ∷ 0 ∷ []

-- A writer with three bits pending.
abbrev begun : BitW
begun = record { buf = buffer; n = 1; acc = 5; nbits = 3; ovf = false }

begun-IsReady : IsReady begun
begun-IsReady = record { pending = omega arith; small = omega arith; inside = λ e. omega arith }

put-Took_example : Took begun (bits 6 33) (put begun 33 6)
put-Took_example = put-Took begun 33 6 begun-IsReady (omega arith)

finished : (finish begun).ovf ≡ false
unfolding finish
finished = refl

finish-IsSegment_example : (begun.ovf ≡ false) × IsSegment (written begun) (finish begun)
finish-IsSegment_example = finish-IsSegment begun begun-IsReady finished

abbrev reading : BitR
reading = record { buf = 6 ∷ []; n = 1; acc = 3; nbits = 7; overrun = false }

reading-IsLoaded : IsLoaded reading
reading-IsLoaded = record {
  pending = omega arith;
  inside = omega arith;
  bytes = omega arith;
  bounded = omega arith;
  clean = refl;
}

get-Gave_example : Gave 3 (bits 5 0) (get reading 2)
get-Gave_example = get-Gave reading 2 3 (bits 5 0) reading-IsLoaded (omega arith) (omega arith) refl

abbrev residuals : List ℕ
residuals = 3 ∷ 0 ∷ 5 ∷ []

room : length (line_bits tiled_bits (length residuals) residuals) ≤ 8 * length buffer
unfolding line_bits tile_width bitlen
room = omega arith

unpack_line_tiled-pack_line_tiled_example :
    let w = finish (pack_line_tiled (init_w buffer) residuals) in
    let (v, r) = unpack_line_tiled (init_r (take w.n w.buf)) (length residuals) in
    (w.ovf ≡ false) × (v ≡ residuals) × (r.overrun ≡ false)
unpack_line_tiled-pack_line_tiled_example =
    unpack_line_tiled-pack_line_tiled buffer residuals (omega arith) (omega arith) room

rice_room : length (line_bits rice_tile_bits (length residuals) residuals) ≤ 8 * length buffer
unfolding line_bits rice_k_for_tile rice_bits
rice_room = omega arith

unpack_line_rice-pack_line_rice_example :
    let w = finish (pack_line_rice (init_w buffer) residuals) in
    let (v, r) = unpack_line_rice (init_r (take w.n w.buf)) (length residuals) in
    (w.ovf ≡ false) × (v ≡ residuals) × (r.overrun ≡ false)
unpack_line_rice-pack_line_rice_example =
    unpack_line_rice-pack_line_rice buffer residuals (omega arith) (omega arith) rice_room

abbrev tiny : Params
tiny = record { width = 2; height = 1; near = 0; pack = pack_rice }

abbrev tiny_encoder : Encoder
tiny_encoder = record {
  params = tiny;
  max_size = max_encoded_size tiny;
  plane_y = new_scratch tiny;
  plane_co = new_scratch tiny;
  plane_cg = new_scratch tiny;
}

tiny_encoder-IsEncoder : IsEncoder tiny_encoder
unfolding new_encoder validate
tiny_encoder-IsEncoder = new_encoder-IsEncoder tiny tiny_encoder refl

abbrev tiny_frame : List ℕ
tiny_frame = 10 ∷ 200 ∷ 30 ∷ 255 ∷ 0 ∷ 90 ∷ []

abbrev tiny_dst : List ℕ
tiny_dst = replicate 1078 7

tiny_room : tiny_encoder.max_size ≤ length tiny_dst
unfolding max_encoded_size frame_bytes
tiny_room = omega (arith, length-replicate {A = ℕ} 1078 7)

tiny_size : length tiny_frame ≡ frame_bytes tiny_encoder.params
unfolding frame_bytes
tiny_size = refl

relay_lossless_example : relay tiny_encoder tiny_dst tiny_frame ≡ ok tiny_frame
relay_lossless_example =
    relay_lossless tiny_encoder tiny_dst tiny_frame tiny_encoder-IsEncoder refl tiny_size
      (omega arith) tiny_room

relay_reconstruct_example :
    relay tiny_encoder tiny_dst tiny_frame ≡ ok (reconstruct_frame tiny tiny_frame)
relay_reconstruct_example =
    relay_reconstruct tiny_encoder tiny_dst tiny_frame tiny_encoder-IsEncoder tiny_size
      (omega arith) tiny_room

encode_into_bound_example :
    IsStream (max_encoded_size tiny) (encode_into tiny_encoder tiny_dst tiny_frame).1
encode_into_bound_example =
    encode_into_bound tiny_encoder tiny_dst tiny_frame tiny_encoder-IsEncoder tiny_size
      (omega arith) tiny_room

-- A frame of the wrong size, a destination that is too small, and a frame that is encoded.
abbrev tiny_calls : List (List ℕ × List ℕ)
tiny_calls = (tiny_dst, 1 ∷ []) ∷ ([], tiny_frame) ∷ (tiny_dst, replicate 6 9) ∷ []

relay_reconstruct_again_example :
    relay (after tiny_encoder tiny_calls) tiny_dst tiny_frame
    ≡ ok (reconstruct_frame tiny tiny_frame)
relay_reconstruct_again_example =
    relay_reconstruct_again tiny_encoder tiny_calls tiny_dst tiny_frame tiny_encoder-IsEncoder
      (omega arith) tiny_size (omega arith) tiny_room

-- The encoder's stream for `tiny_frame`.
abbrev tiny_stream : List ℕ
tiny_stream =
    8 ∷ 0 ∷ 8 ∷ 0 ∷ 8 ∷ 0 ∷ 0 ∷ 0 ∷ 152 ∷ 251 ∷ 11 ∷ 0 ∷ 0 ∷ 0 ∷ 0 ∷ 0 ∷ 248 ∷ 68 ∷ 57 ∷ 0 ∷ 0 ∷ 0
    ∷ 0 ∷ 0 ∷ 26 ∷ 173 ∷ 191 ∷ 2 ∷ 0 ∷ 0 ∷ 0 ∷ 0 ∷ []
