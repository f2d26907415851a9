-- ===== src/Groovy/Builder.antt =====
-- internal/groovy/builder.go: the packets. Go's panics are `none`.
pub mod Laws
use mi_ster_groovy_relay.Prelude.{
  ℕ, ◌%◌, Bool, not, ◌&&◌, ◌||◌, Option, none, some, List, [], ◌∷◌, ◌++◌, ltb, ◌==◌, if◌then◌else◌,
  length, set, take, drop, replicate,
}
use mi_ster_groovy_relay.Groovy.{
  cmd_init, cmd_switchres, cmd_close, cmd_blit_field_vsync, cmd_audio, lz4_mode_off,
  lz4_mode_default, nlc_codec_mode, audio_rate_off, audio_rate_22050, audio_rate_44100,
  audio_rate_48000, rgb_mode_888, rgb_mode_8888, rgb_mode_565, blit_header_raw, blit_header_raw_dup,
  blit_header_lz4, blit_header_lz4_delta, blit_flag_dup, blit_flag_delta, audio_header_size,
}
use mi_ster_groovy_relay.Groovy.Endian.{u16_bytes, u32_bytes, u64_bytes, write_at}
use mi_ster_groovy_relay.Groovy.Modeline.{Modeline}

unfoldable pub valid_lz4_frames : ℕ → Bool
valid_lz4_frames b = (b == lz4_mode_off || b == lz4_mode_default) || b % 4 == nlc_codec_mode

unfoldable pub valid_sound_rate : ℕ → Bool
valid_sound_rate b =
    (b == audio_rate_off || b == audio_rate_22050)
    || (b == audio_rate_44100 || b == audio_rate_48000)

unfoldable pub valid_rgb_mode : ℕ → Bool
valid_rgb_mode b = (b == rgb_mode_888 || b == rgb_mode_8888) || b == rgb_mode_565

unfoldable pub build_init : ℕ → ℕ → ℕ → ℕ → Option (List ℕ)
unfolding valid_lz4_frames valid_sound_rate valid_rgb_mode
build_init lz4_frames sound_rate sound_chan rgb_mode =
    if not (valid_lz4_frames lz4_frames)
    then none
    else if not (valid_sound_rate sound_rate)
    then none
    else if ltb 2 sound_chan
    then none
    else if not (valid_rgb_mode rgb_mode)
    then none
    else some (cmd_init ∷ lz4_frames ∷ sound_rate ∷ sound_chan ∷ rgb_mode ∷ [])

unfoldable pub build_switchres : Modeline → List ℕ
build_switchres ml =
    let buf = replicate 26 0 in
    let buf = set buf 0 cmd_switchres in
    let buf = write_at buf 1 (u64_bytes ml.p_clock) in
    let buf = write_at buf 9 (u16_bytes ml.h_active) in
    let buf = write_at buf 11 (u16_bytes ml.h_begin) in
    let buf = write_at buf 13 (u16_bytes ml.h_end) in
    let buf = write_at buf 15 (u16_bytes ml.h_total) in
    let buf = write_at buf 17 (u16_bytes ml.v_active) in
    let buf = write_at buf 19 (u16_bytes ml.v_begin) in
    let buf = write_at buf 21 (u16_bytes ml.v_end) in
    let buf = write_at buf 23 (u16_bytes ml.v_total) in set buf 25 ml.interlace

unfoldable pub build_close : List ℕ
build_close = cmd_close ∷ []

pub record BlitOpts : Type 0 where
  pub frame : ℕ
  pub field : ℕ
  pub vsync : ℕ
  pub compressed_size : ℕ
  pub compressed : Bool
  pub delta : Bool
  pub duplicate : Bool

unfoldable pub blit_header_length : BlitOpts → ℕ
blit_header_length o =
    if o.duplicate
    then blit_header_raw_dup
    else if o.compressed && o.delta
    then blit_header_lz4_delta
    else if o.compressed
    then blit_header_lz4
    else blit_header_raw

-- The stores that `BuildBlitHeader` and `BuildBlitHeaderInto` both make into `h`.
abbrev pub fill_blit_header : BlitOpts → List ℕ → List ℕ
fill_blit_header o h =
    let h = set h 0 cmd_blit_field_vsync in
    let h = write_at h 1 (u32_bytes o.frame) in
    let h = set h 5 o.field in
    let h = write_at h 6 (u16_bytes o.vsync) in
    let sized = write_at h 8 (u32_bytes o.compressed_size) in
    if o.duplicate
    then set h 8 blit_flag_dup
    else if o.compressed
    then (if o.delta then set sized 12 blit_flag_delta else sized)
    else h

unfoldable pub build_blit_header : BlitOpts → List ℕ
unfolding blit_header_length
build_blit_header o = fill_blit_header o (replicate (blit_header_length o) 0)

-- A slice: its array from its first element to its capacity, and its length.
pub record Slice : Type 0 where
  pub array : List ℕ
  pub len : ℕ

-- `dst[:length]` reads no length, and panics where the capacity is less.
unfoldable pub build_blit_header_into : Slice → BlitOpts → Option Slice
unfolding blit_header_length
build_blit_header_into dst o =
    let n = blit_header_length o in
    if ltb (length dst.array) n
    then none
    else some
        (record { array = fill_blit_header o (take n dst.array) ++ drop n dst.array; len = n })

unfoldable pub build_audio_header : ℕ → List ℕ
build_audio_header sound_size =
    let buf = replicate audio_header_size 0 in
    let buf = set buf 0 cmd_audio in write_at buf 1 (u16_bytes sound_size)
