-- ===== src/Groovy/Tests.antt =====
-- internal/groovy/builder.go: the theorems at concrete headers.
use mi_ster_groovy_relay.Prelude.{
  ◌≡◌, true, false, none, some, ◌++◌, ltb, if◌then◌else◌, length, drop, replicate,
}
use mi_ster_groovy_relay.Groovy.Builder.{
  Slice, BlitOpts, blit_header_length, build_blit_header, build_blit_header_into,
}
use mi_ster_groovy_relay.Groovy.Builder.Laws.{build_blit_header_into_fresh}

-- A slice of 2 bytes, with room for 16.
abbrev used : Slice
used = record { array = replicate 16 9; len = 2 }

abbrev delta_opts : BlitOpts
delta_opts = record {
  frame = 70000;
  field = 1;
  vsync = 300;
  compressed_size = 4000;
  compressed = true;
  delta = true;
  duplicate = false;
}

build_blit_header_into_fresh_example : build_blit_header_into used delta_opts ≡ (
    if ltb (length used.array) (blit_header_length delta_opts)
    then none
    else some (record {
      array = build_blit_header delta_opts ++ drop (blit_header_length delta_opts) used.array;
      len = length (build_blit_header delta_opts);
    }))
build_blit_header_into_fresh_example = build_blit_header_into_fresh used delta_opts
