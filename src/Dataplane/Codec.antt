-- ===== src/Dataplane/Codec.antt =====
-- internal/dataplane/codec.go and the rule of internal/dataplane/keepalive.go: which codec a session
-- uses, INIT byte 1 for it, and which ACK moves the frame echo.
pub mod InitByte
use mi_ster_groovy_relay.Prelude.{ℕ, Bool, not, ◌&&◌, ◌==◌}
use mi_ster_groovy_relay.Groovy.{lz4_mode_off, lz4_mode_default}
use mi_ster_groovy_relay.Groovy.Core.{Core, unknown, groovy, groovy_nlc, nlc_compression_byte}
use mi_ster_groovy_relay.Groovy.Ack.{Ack}

-- A codec is a string: `empty` is the zero value, and `other` any that is not a constant.
pub data Codec : Type 0 where
  auto : Codec
  raw : Codec
  lz4 : Codec
  nlc : Codec
  empty : Codec
  other : Codec

pub data Warning : Type 0 where
  no_warning : Warning
  nlc_needs_core : Warning
  unknown_codec : Warning

unfoldable pub resolve_codec : Codec → Core → Codec × Warning
resolve_codec auto core = (lz4, no_warning)
resolve_codec lz4 core = (lz4, no_warning)
resolve_codec raw core = (raw, no_warning)
resolve_codec empty core = (raw, no_warning)
resolve_codec nlc groovy_nlc = (nlc, no_warning)
resolve_codec nlc unknown = (lz4, no_warning)
resolve_codec nlc groovy = (lz4, nlc_needs_core)
resolve_codec other core = (lz4, unknown_codec)

unfoldable pub init_compression_byte : Codec → ℕ → Bool → ℕ
unfolding nlc_compression_byte
init_compression_byte lz4 near rice = lz4_mode_default
init_compression_byte nlc near rice = nlc_compression_byte near rice
init_compression_byte c near rice = lz4_mode_off

unfoldable pub echo_advanced : Ack → ℕ → Bool
echo_advanced a last_echo = not (a.frame_echo == 0) && not (a.frame_echo == last_echo)
