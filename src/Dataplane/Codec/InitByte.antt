-- ===== src/Dataplane/Codec/InitByte.antt =====
-- internal/dataplane/codec.go against internal/groovy/builder.go: INIT byte 1 of a resolved codec.
use mi_ster_groovy_relay.Prelude.{ℕ, zero, suc, ◌%◌, ◌<◌, ◌≡◌, refl, Bool, true, false, arith, ◌==◌}
use mi_ster_groovy_relay.Groovy.Core.{Core, unknown, groovy, groovy_nlc, nlc_compression_byte}
use mi_ster_groovy_relay.Groovy.Builder.{valid_lz4_frames}
use mi_ster_groovy_relay.Dataplane.Codec.{
  Codec, auto, raw, lz4, nlc, empty, other, resolve_codec, init_compression_byte,
}

-- The codec number is in the two low bits.
nlc_low_bits : (near : ℕ) (rice : Bool) → near < 4 → nlc_compression_byte near rice % 4 ≡ 2
unfolding nlc_compression_byte
nlc_low_bits zero true h = refl
nlc_low_bits zero false h = refl
nlc_low_bits (suc zero) true h = refl
nlc_low_bits (suc zero) false h = refl
nlc_low_bits (suc (suc zero)) true h = refl
nlc_low_bits (suc (suc zero)) false h = refl
nlc_low_bits (suc (suc (suc zero))) true h = refl
nlc_low_bits (suc (suc (suc zero))) false h = refl
nlc_low_bits (suc (suc (suc (suc n)))) rice h = absurd (omega arith)

abbrev pub is_raw : Codec → Bool
is_raw raw = true
is_raw c = false

-- The byte is one that `BuildInit` accepts, and has no codec bits exactly for a raw session.
abbrev Fits : Codec → ℕ → Bool → Type 0
Fits c near rice =
    (valid_lz4_frames (init_compression_byte c near rice) ≡ true)
    × ((init_compression_byte c near rice % 4 == 0) ≡ is_raw c)

raw-Fits : (near : ℕ) (rice : Bool) → Fits raw near rice
unfolding init_compression_byte valid_lz4_frames
raw-Fits near rice = (refl, refl)

lz4-Fits : (near : ℕ) (rice : Bool) → Fits lz4 near rice
unfolding init_compression_byte valid_lz4_frames
lz4-Fits near rice = (refl, refl)

nlc-Fits : (near : ℕ) (rice : Bool) → near < 4 → Fits nlc near rice
unfolding init_compression_byte valid_lz4_frames
nlc-Fits near rice h = let e = nlc_low_bits near rice h in (ground (arith, e), ground (arith, e))

-- Whatever codec is configured and whichever core answers, INIT byte 1 of the codec that the
-- session resolves to, for a level below 4, is one that BuildInit accepts, and its two codec bits,
-- by which the receiver decides on compression, are 0 exactly where that codec is raw.
pub init_compression_byte-resolve_codec :
    (c : Codec) (core : Core) (near : ℕ) (rice : Bool)
    → near < 4
    → let effective = (resolve_codec c core).0 in
      (valid_lz4_frames (init_compression_byte effective near rice) ≡ true)
      × ((init_compression_byte effective near rice % 4 == 0) ≡ is_raw effective)
unfolding resolve_codec
init_compression_byte-resolve_codec auto core near rice h = lz4-Fits near rice
init_compression_byte-resolve_codec lz4 core near rice h = lz4-Fits near rice
init_compression_byte-resolve_codec raw core near rice h = raw-Fits near rice
init_compression_byte-resolve_codec empty core near rice h = raw-Fits near rice
init_compression_byte-resolve_codec nlc groovy_nlc near rice h = nlc-Fits near rice h
init_compression_byte-resolve_codec nlc unknown near rice h = lz4-Fits near rice
init_compression_byte-resolve_codec nlc groovy near rice h = lz4-Fits near rice
init_compression_byte-resolve_codec other core near rice h = lz4-Fits near rice
