-- ===== src/FakeMister/Command/RoundTrip.antt =====
-- internal/groovy/builder.go against internal/fakemister/listener.go: the built packets, parsed.
use mi_ster_groovy_relay.Prelude.{
  ℕ, ◌^◌, ◌<◌, ◌≡◌, false, ◌&&◌, some, List, [], ◌∷◌, arith, if◌then◌else◌,
}
use mi_ster_groovy_relay.Prelude.Result.{ok}
use mi_ster_groovy_relay.Groovy.{cmd_init, cmd_switchres, cmd_audio, cmd_blit_field_vsync}
use mi_ster_groovy_relay.Groovy.Endian.{u64_lem}
use mi_ster_groovy_relay.Groovy.Modeline.{Modeline, InRange}
use mi_ster_groovy_relay.Groovy.Builder.{
  BlitOpts, build_init, build_switchres, build_blit_header, build_audio_header,
}
use mi_ster_groovy_relay.Groovy.Builder.Laws.{blit_layout, build_blit_header-blit_layout}
use mi_ster_groovy_relay.FakeMister.Command.{
  BlitHeader, init, switchres, audio, blit, parse_command,
}

-- What the receiver reads of a header: the size only where it is compressed, and the flags of the
-- variant that the header's length tells.
abbrev pub received : BlitOpts → BlitHeader
received o = record {
  frame = o.frame;
  field = o.field;
  vsync = o.vsync;
  compressed = if o.duplicate then false else o.compressed;
  delta = if o.duplicate then false else (o.compressed && o.delta);
  duplicate = o.duplicate;
  compressed_size = if o.duplicate then 0 else if o.compressed then o.compressed_size else 0;
}

-- An INIT packet that is built without a panic is parsed back to the four values it was built from.
pub parse_command-build_init :
    (lz4 rate chan rgb : ℕ) (pkt : List ℕ)
    → build_init lz4 rate chan rgb ≡ some pkt
    → parse_command pkt
      ≡ ok (record {
        type = cmd_init;
        body =
            init
              (record { lz4_frames = lz4; sound_rate = rate; sound_chan = chan; rgb_mode = rgb });
        raw = pkt;
      })
unfolding build_init parse_command
parse_command-build_init lz4 rate chan rgb pkt h =
    let e : cmd_init ∷ lz4 ∷ rate ∷ chan ∷ rgb ∷ [] ≡ pkt = ground arith in rw (← e)

-- A SWITCHRES packet of a modeline whose fields are in the range of their types is parsed back to
-- those that the receiver reads.
pub parse_command-build_switchres :
    (m : Modeline)
    → InRange m
    → parse_command (build_switchres m)
      ≡ ok (record {
        type = cmd_switchres;
        body = switchres (record {
          p_clock = m.p_clock;
          h_active = m.h_active;
          h_total = m.h_total;
          v_active = m.v_active;
          v_total = m.v_total;
          interlace = m.interlace;
        });
        raw = build_switchres m;
      })
unfolding build_switchres parse_command
parse_command-build_switchres m r = ground (arith, u64_lem m.p_clock)

-- An AUDIO header for a size below 2 ^ 16 is parsed back to the size.
pub parse_command-build_audio_header :
    (size : ℕ)
    → size < 2 ^ 16
    → parse_command (build_audio_header size)
      ≡ ok (record {
        type = cmd_audio;
        body = audio (record { sound_size = size });
        raw = build_audio_header size;
      })
unfolding build_audio_header parse_command
parse_command-build_audio_header size h = ground arith

-- A BLIT header whose numbers fit their fields is parsed back to what it was built from: the size
-- only where it is compressed, and the flags of the variant that its length tells.
pub parse_command-build_blit_header :
    (o : BlitOpts)
    → o.frame < 2 ^ 32
    → o.vsync < 2 ^ 16
    → o.compressed_size < 2 ^ 32
    → parse_command (build_blit_header o)
      ≡ ok (record {
        type = cmd_blit_field_vsync;
        body = blit (received o);
        raw = build_blit_header o;
      })
unfolding parse_command blit_layout
parse_command-build_blit_header o hf hv hs = rw (build_blit_header-blit_layout o) (ground arith)
