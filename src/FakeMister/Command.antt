-- ===== src/FakeMister/Command.antt =====
-- internal/fakemister/listener.go: ParseCommand and the payload types.
-- `Command` has one pointer for each payload, of which exactly one is set: here that is `Body`.
-- ReceivedAt and AudioPayload are set elsewhere and left out.
pub mod RoundTrip
use mi_ster_groovy_relay.Prelude.{
  ℕ, Bool, true, false, ◌||◌, List, [], ◌∷◌, ltb, leb, ◌==◌, if◌then◌else◌, length, get_or,
}
use mi_ster_groovy_relay.Prelude.Result.{Result, ok, err}
use mi_ster_groovy_relay.Groovy.{
  cmd_close, cmd_init, cmd_switchres, cmd_audio, cmd_get_status, cmd_blit_field_vsync,
  cmd_get_version, rgb_mode_888, blit_header_raw, blit_header_raw_dup, blit_header_lz4,
  blit_header_lz4_delta, blit_flag_dup, blit_flag_delta, audio_header_size,
}
use mi_ster_groovy_relay.Groovy.Endian.{u16_at, u32_at, u64_at}

pub record InitPayload : Type 0 where
  pub lz4_frames : ℕ
  pub sound_rate : ℕ
  pub sound_chan : ℕ
  pub rgb_mode : ℕ

-- `p_clock` is the bit pattern of the float64.
pub record SwitchresPayload : Type 0 where
  pub p_clock : ℕ
  pub h_active : ℕ
  pub h_total : ℕ
  pub v_active : ℕ
  pub v_total : ℕ
  pub interlace : ℕ

pub record AudioHeader : Type 0 where
  pub sound_size : ℕ

pub record BlitHeader : Type 0 where
  pub frame : ℕ
  pub field : ℕ
  pub vsync : ℕ
  pub compressed : Bool
  pub delta : Bool
  pub duplicate : Bool
  pub compressed_size : ℕ

pub data Body : Type 0 where
  close : Body
  query : Body
  init : InitPayload → Body
  switchres : SwitchresPayload → Body
  audio : AudioHeader → Body
  blit : BlitHeader → Body

pub record Command : Type 0 where
  pub type : ℕ
  pub body : Body
  pub raw : List ℕ

pub data ParseError : Type 0 where
  empty_packet : ParseError
  query_length : ParseError
  init_too_short : ParseError
  switchres_too_short : ParseError
  audio_length : ParseError
  blit_too_short : ParseError
  blit_length : ParseError
  unknown_command : ParseError

parse_init : List ℕ → Result ParseError Body
parse_init pkt =
    if ltb (length pkt) 4
    then err init_too_short
    else ok (
        init (record {
          lz4_frames = get_or pkt 1 0;
          sound_rate = get_or pkt 2 0;
          sound_chan = get_or pkt 3 0;
          rgb_mode = if leb 5 (length pkt) then get_or pkt 4 0 else rgb_mode_888;
        }))

parse_switchres : List ℕ → Result ParseError Body
parse_switchres pkt =
    if ltb (length pkt) 26
    then err switchres_too_short
    else ok (
        switchres (record {
          p_clock = u64_at pkt 1;
          h_active = u16_at pkt 9;
          h_total = u16_at pkt 15;
          v_active = u16_at pkt 17;
          v_total = u16_at pkt 23;
          interlace = get_or pkt 25 0;
        }))

parse_audio : List ℕ → Result ParseError Body
parse_audio pkt =
    if length pkt == audio_header_size
    then ok (audio (record { sound_size = u16_at pkt 1 }))
    else err audio_length

-- The fields that every variant has; the length decides the rest.
abbrev blit_base : List ℕ → BlitHeader
blit_base pkt = record {
  frame = u32_at pkt 1;
  field = get_or pkt 5 0;
  vsync = u16_at pkt 6;
  compressed = false;
  delta = false;
  duplicate = false;
  compressed_size = 0;
}

parse_blit : List ℕ → Result ParseError Body
parse_blit pkt =
    let n = length pkt in
    let bh = blit_base pkt in
    if ltb n blit_header_raw
    then err blit_too_short
    else if n == blit_header_raw
    then ok (blit bh)
    else if n == blit_header_raw_dup
    then ok (blit (record bh { duplicate = get_or pkt 8 0 == blit_flag_dup }))
    else if n == blit_header_lz4
    then ok (blit (record bh { compressed = true; compressed_size = u32_at pkt 8 }))
    else if n == blit_header_lz4_delta
    then ok (
        blit (record bh {
          compressed = true;
          delta = get_or pkt 12 0 == blit_flag_delta;
          compressed_size = u32_at pkt 8;
        }))
    else err blit_length

parse_body : ℕ → List ℕ → Result ParseError Body
unfolding parse_init parse_switchres parse_audio parse_blit
parse_body type pkt =
    if type == cmd_get_version || type == cmd_get_status
    then (if length pkt == 1 then ok query else err query_length)
    else if type == cmd_init
    then parse_init pkt
    else if type == cmd_switchres
    then parse_switchres pkt
    else if type == cmd_audio
    then parse_audio pkt
    else if type == cmd_blit_field_vsync
    then parse_blit pkt
    else if type == cmd_close
    then ok close
    else err unknown_command

abbrev with_body : ℕ → List ℕ → Result ParseError Body → Result ParseError Command
with_body type pkt (ok b) = ok (record { type = type; body = b; raw = pkt })
with_body type pkt (err e) = err e

unfoldable pub parse_command : List ℕ → Result ParseError Command
unfolding parse_body
parse_command [] = err empty_packet
parse_command (type ∷ rest) = with_body type (type ∷ rest) (parse_body type (type ∷ rest))
