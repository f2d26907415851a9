-- ===== src/Groovy/Ack.antt =====
-- internal/groovy/ack.go: the 13-byte status datagram.
use mi_ster_groovy_relay.Prelude.{
  ℕ, ◌/◌, ◌%◌, ◌^◌, Bool, not, Option, none, some, List, ◌==◌, if◌then◌else◌, length, get_or,
}
use mi_ster_groovy_relay.Groovy.{ack_packet_size}
use mi_ster_groovy_relay.Groovy.Endian.{u16_at, u32_at}

pub record Ack : Type 0 where
  pub frame_echo : ℕ
  pub vcount_echo : ℕ
  pub fpga_frame : ℕ
  pub fpga_vcount : ℕ
  pub status : ℕ

-- `Status & (1 << k) != 0`
abbrev status_bit : ℕ → Ack → Bool
status_bit k a = not (a.status / 2 ^ k % 2 == 0)

unfoldable pub audio_ready : Ack → Bool
audio_ready a = status_bit 6 a

unfoldable pub vga_field : Ack → Bool
vga_field a = status_bit 5 a

unfoldable pub vram_ready : Ack → Bool
vram_ready a = status_bit 0 a

-- `none` is the error of a datagram of another length.
unfoldable pub parse_ack : List ℕ → Option Ack
parse_ack pkt =
    if length pkt == ack_packet_size
    then some (record {
      frame_echo = u32_at pkt 0;
      vcount_echo = u16_at pkt 4;
      fpga_frame = u32_at pkt 6;
      fpga_vcount = u16_at pkt 10;
      status = get_or pkt 12 0;
    })
    else none
