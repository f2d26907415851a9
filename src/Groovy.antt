-- ===== src/Groovy.antt =====
-- internal/groovy: the constants of the Groovy UDP protocol (constants.go, core.go).
-- A byte is a number below 256, and a packet is a list of bytes.
pub mod Tests
pub mod Endian
pub mod Core
pub mod Ack
pub mod Modeline
pub mod Builder
use mi_ster_groovy_relay.Prelude.{ℕ}

-- The first byte of every command datagram.
abbrev pub cmd_close : ℕ
cmd_close = 1

abbrev pub cmd_init : ℕ
cmd_init = 2

abbrev pub cmd_switchres : ℕ
cmd_switchres = 3

abbrev pub cmd_audio : ℕ
cmd_audio = 4

abbrev pub cmd_get_status : ℕ
cmd_get_status = 5

abbrev pub cmd_blit_field_vsync : ℕ
cmd_blit_field_vsync = 7

abbrev pub cmd_get_version : ℕ
cmd_get_version = 8

abbrev pub rgb_mode_888 : ℕ
rgb_mode_888 = 0

abbrev pub rgb_mode_8888 : ℕ
rgb_mode_8888 = 1

abbrev pub rgb_mode_565 : ℕ
rgb_mode_565 = 2

abbrev pub blit_flag_dup : ℕ
blit_flag_dup = 1

abbrev pub blit_flag_delta : ℕ
blit_flag_delta = 1

-- The length of a BLIT header tells its variant.
abbrev pub blit_header_raw : ℕ
blit_header_raw = 8

abbrev pub blit_header_raw_dup : ℕ
blit_header_raw_dup = 9

abbrev pub blit_header_lz4 : ℕ
blit_header_lz4 = 12

abbrev pub blit_header_lz4_delta : ℕ
blit_header_lz4_delta = 13

abbrev pub lz4_mode_off : ℕ
lz4_mode_off = 0

abbrev pub lz4_mode_default : ℕ
lz4_mode_default = 1

abbrev pub audio_rate_off : ℕ
audio_rate_off = 0

abbrev pub audio_rate_22050 : ℕ
audio_rate_22050 = 1

abbrev pub audio_rate_44100 : ℕ
audio_rate_44100 = 2

abbrev pub audio_rate_48000 : ℕ
audio_rate_48000 = 3

abbrev pub max_datagram : ℕ
max_datagram = 1472

abbrev pub congestion_size : ℕ
congestion_size = 500000

abbrev pub congestion_wait : ℕ
congestion_wait = 11

abbrev pub ack_packet_size : ℕ
ack_packet_size = 13

abbrev pub audio_header_size : ℕ
audio_header_size = 3

abbrev pub nlc_codec_mode : ℕ
nlc_codec_mode = 2
