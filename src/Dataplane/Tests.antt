-- ===== src/Dataplane/Tests.antt =====
-- internal/dataplane: the theorems at concrete rings and trackers.
use mi_ster_groovy_relay.Groovy.Core.{groovy_nlc}
use mi_ster_groovy_relay.Groovy.Builder.{valid_lz4_frames}
use mi_ster_groovy_relay.Dataplane.Codec.{nlc, resolve_codec, init_compression_byte}
use mi_ster_groovy_relay.Dataplane.Codec.InitByte.{is_raw, init_compression_byte-resolve_codec}
use mi_ster_groovy_relay.Prelude.{
  ℕ, ◌%◌, ◌<◌, ◌≡◌, refl, true, none, some, [], ◌∷◌, ◌++◌, arith, ltb, ◌==◌, if◌then◌else◌, length,
  get_or, drop,
}
use mi_ster_groovy_relay.Dataplane.AudioRing.{AudioDelayRing, push, pop_if_beyond}
use mi_ster_groovy_relay.Dataplane.AudioRing.Queue
use mi_ster_groovy_relay.Dataplane.AudioRing.Queue.{contents, contents-push, contents-pop_if_beyond}
use mi_ster_groovy_relay.Dataplane.FieldParity.{Tracker, observe_relation}
use mi_ster_groovy_relay.Dataplane.FieldParity.Lock.{samples, slips_after_thirty}

-- A full ring that has wrapped.
abbrev full_ring : AudioDelayRing ℕ
full_ring = record { buf = some 3 ∷ some 1 ∷ some 2 ∷ []; head = 1; n = 3; drops = 0 }

full_ring-IsValid : Queue.IsValid full_ring
full_ring-IsValid = record { inside = omega arith; bounded = omega arith }

contents-push_example :
    (contents (push full_ring 4).0
      ≡ (if full_ring.n == length full_ring.buf
          then drop 1 (contents full_ring)
          else contents full_ring)
        ++ (some 4 ∷ []))
    × ((push full_ring 4).1 ≡ (full_ring.n == length full_ring.buf))
contents-push_example = contents-push full_ring 4 full_ring-IsValid

contents-pop_if_beyond_example :
    (contents (pop_if_beyond full_ring 2).0
      ≡ (if ltb 2 full_ring.n then drop 1 (contents full_ring) else contents full_ring))
    × ((pop_if_beyond full_ring 2).1
        ≡ (if ltb 2 full_ring.n then get_or (contents full_ring) 0 none else none))
contents-pop_if_beyond_example = contents-pop_if_beyond full_ring 2 full_ring-IsValid

abbrev locked_tracker : Tracker
locked_tracker = record {
  sent = [];
  stable = some 0;
  candidate = none;
  candidate_run = 0;
  slips = 0;
  flutter = 0;
}

slips_after_thirty_example :
    ((k : ℕ) → k < 30 → (samples locked_tracker 1 k).stable ≡ some 0)
    × ((observe_relation (samples locked_tracker 1 29) 1).0.stable ≡ some 1)
    × ((observe_relation (samples locked_tracker 1 29) 1).2 ≡ true)
slips_after_thirty_example = slips_after_thirty 0 1 (omega arith) locked_tracker refl refl

init_compression_byte-resolve_codec_example :
    let effective = (resolve_codec nlc groovy_nlc).0 in
    (valid_lz4_frames (init_compression_byte effective 2 true) ≡ true)
    × ((init_compression_byte effective 2 true % 4 == 0) ≡ is_raw effective)
init_compression_byte-resolve_codec_example =
    init_compression_byte-resolve_codec nlc groovy_nlc 2 true (omega arith)
