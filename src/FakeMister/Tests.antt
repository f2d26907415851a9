-- ===== src/FakeMister/Tests.antt =====
-- internal/fakemister: the theorems at concrete packets.
use mi_ster_groovy_relay.Prelude.{
  ℕ, ◌-◌, ◌≡◌, refl, inl, inr, true, false, none, some, List, [], ◌∷◌, ◌++◌, arith, leb, length,
  take,
}
use mi_ster_groovy_relay.Prelude.Result.{ok}
use mi_ster_groovy_relay.Groovy.{cmd_init, cmd_switchres, cmd_blit_field_vsync}
use mi_ster_groovy_relay.Groovy.Modeline.{Modeline, InRange}
use mi_ster_groovy_relay.Groovy.Builder.{BlitOpts, build_init, build_switchres, build_blit_header}
use mi_ster_groovy_relay.Net.Sender.{Sender, send_payload}
use mi_ster_groovy_relay.FakeMister.Command.{init, switchres, blit, parse_command}
use mi_ster_groovy_relay.FakeMister.Command.RoundTrip.{
  received, parse_command-build_init, parse_command-build_switchres,
  parse_command-build_blit_header,
}
use mi_ster_groovy_relay.FakeMister.Reassembler.{Reassembler, write}
use mi_ster_groovy_relay.FakeMister.Reassembler.Laws
use mi_ster_groovy_relay.FakeMister.Reassembler.Laws.{write_lem}
use mi_ster_groovy_relay.FakeMister.Listener.{
  observe_arrival, Listener, Arrival, command_mode, command, field_event, run,
}
use mi_ster_groovy_relay.FakeMister.Listener.Transfer.{
  Accepts, Accepts, datagrams, header_command, transfer_field,
}

abbrev init_packet : List ℕ
init_packet = cmd_init ∷ 1 ∷ 3 ∷ 2 ∷ 0 ∷ []

builds : build_init 1 3 2 0 ≡ some init_packet
unfolding build_init
builds = refl

parse_command-build_init_example :
    parse_command init_packet
    ≡ ok (record {
      type = cmd_init;
      body = init (record { lz4_frames = 1; sound_rate = 3; sound_chan = 2; rgb_mode = 0 });
      raw = init_packet;
    })
parse_command-build_init_example = parse_command-build_init 1 3 2 0 init_packet builds

abbrev ntsc : Modeline
ntsc = record {
  p_clock = 4623226492472524800;
  h_active = 720;
  h_begin = 744;
  h_end = 809;
  h_total = 880;
  v_active = 480;
  v_begin = 488;
  v_end = 494;
  v_total = 525;
  interlace = 1;
}

ntsc-InRange : InRange ntsc
ntsc-InRange = record {
  p_clock_fits = omega arith;
  h_active_fits = omega arith;
  h_begin_fits = omega arith;
  h_end_fits = omega arith;
  h_total_fits = omega arith;
  v_active_fits = omega arith;
  v_begin_fits = omega arith;
  v_end_fits = omega arith;
  v_total_fits = omega arith;
  interlace_fits = omega arith;
}

parse_command-build_switchres_example :
    parse_command (build_switchres ntsc)
    ≡ ok (record {
      type = cmd_switchres;
      body = switchres (record {
        p_clock = 4623226492472524800;
        h_active = 720;
        h_total = 880;
        v_active = 480;
        v_total = 525;
        interlace = 1;
      });
      raw = build_switchres ntsc;
    })
parse_command-build_switchres_example = parse_command-build_switchres ntsc ntsc-InRange

abbrev raw_opts : BlitOpts
raw_opts = record {
  frame = 70000;
  field = 1;
  vsync = 300;
  compressed_size = 0;
  compressed = false;
  delta = false;
  duplicate = false;
}

parse_command-build_blit_header_example :
    parse_command (build_blit_header raw_opts)
    ≡ ok (record {
      type = cmd_blit_field_vsync;
      body = blit (received raw_opts);
      raw = build_blit_header raw_opts;
    })
parse_command-build_blit_header_example =
    parse_command-build_blit_header raw_opts (omega arith) (omega arith) (omega arith)

abbrev chunk : List ℕ
chunk = 3 ∷ 4 ∷ 5 ∷ []

abbrev started : Reassembler
started = record { expected = 4; got = 2; buf = 1 ∷ 2 ∷ [] }

write_lem_example :
    Laws.IsValid (write started chunk).0
    × ((write started chunk).0.expected ≡ 4)
    × ((write started chunk).0.buf ≡ (1 ∷ 2 ∷ []) ++ take (4 - 2) chunk)
    × ((write started chunk).1 ≡ leb (4 - 2) (length chunk))
write_lem_example =
    write_lem started chunk (record { fits = omega arith; bounded = omega arith; counted = refl })
      (omega arith)

abbrev open_listener : Listener
open_listener = record {
  ack_on_init = true;
  audio_ready_bit = true;
  zero_size_lz4_blits = 0;
  core_version = 1;
  idle_timeout = 0;
  session_open = true;
  last_recv = none;
  reaps = 0;
}

abbrev sender : Sender
sender = record {
  enobuf_count = 0;
  last_send = 0;
  payload_send_start = none;
  last_blit_size = 0;
  last_blit_time = 0;
}

abbrev bytes : List ℕ
bytes = 7 ∷ 8 ∷ 9 ∷ []

abbrev header_arrival : Arrival
header_arrival = record { at = 1; datagram = build_blit_header raw_opts; field_size = 3 }

abbrev payload_arrivals : List Arrival
payload_arrivals = record { at = 2; datagram = bytes; field_size = 3 } ∷ []

accepts : Accepts (observe_arrival open_listener 1)
unfolding observe_arrival
accepts = inl refl

one_datagram : datagrams payload_arrivals ≡ (send_payload sender (λ k. none) 4 5 bytes).datagrams
unfolding send_payload
one_datagram = refl

transfer_field_example :
    let r =
      run
        (record { mode = command_mode; compression = false; listener = open_listener })
        (header_arrival ∷ payload_arrivals) in
    (r.1 ≡ command (header_command raw_opts) ∷ field_event (received raw_opts) bytes ∷ [])
    × (r.0.mode ≡ command_mode)
    × (r.0.compression ≡ false)
transfer_field_example =
    transfer_field false open_listener header_arrival raw_opts bytes sender 4 5 payload_arrivals
      (omega arith) (omega arith) (omega arith) accepts (refl, inr (refl, refl, refl)) (omega arith)
      (omega arith) refl one_datagram
