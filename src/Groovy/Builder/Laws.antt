-- ===== src/Groovy/Builder/Laws.antt =====
-- internal/groovy/builder.go: the headers as plain lists of bytes.
use mi_ster_groovy_relay.Prelude.{
  ℕ, ◌≡◌, inl, inr, none, some, List, [], ◌∷◌, ◌++◌, arith, ltb, if◌then◌else◌, Bool-cases, length,
  take, drop, length-take, length-replicate, ltb-false→le,
}
use mi_ster_groovy_relay.Groovy.{cmd_blit_field_vsync, blit_flag_dup, blit_flag_delta}
use mi_ster_groovy_relay.Groovy.Endian.{u16_bytes, u32_bytes, write_at_cover}
use mi_ster_groovy_relay.Groovy.Builder.{
  Slice, BlitOpts, fill_blit_header, blit_header_length, build_blit_header, build_blit_header_into,
}

-- The bytes of a BLIT header, by variant.
unfoldable pub blit_layout : BlitOpts → List ℕ
blit_layout o =
    let common = cmd_blit_field_vsync ∷ u32_bytes o.frame ++ (o.field ∷ u16_bytes o.vsync) in
    if o.duplicate
    then common ++ (blit_flag_dup ∷ [])
    else if o.compressed
    then (if o.delta
        then common ++ (u32_bytes o.compressed_size ++ (blit_flag_delta ∷ []))
        else common ++ u32_bytes o.compressed_size)
    else common

-- The stores fill a header of the right length, whatever it held.
fill_blit_header_cover :
    (o : BlitOpts) (h : List ℕ)
    → length h ≡ blit_header_length o
    → fill_blit_header o h ≡ blit_layout o
unfolding blit_layout blit_header_length
fill_blit_header_cover o h e = ground (
  arith,
  write_at_cover h (common ++ (blit_flag_dup ∷ [])),
  write_at_cover h (common ++ (u32_bytes o.compressed_size ++ (blit_flag_delta ∷ []))),
  write_at_cover h (common ++ u32_bytes o.compressed_size),
  write_at_cover h common,
)
  where
    common : List ℕ
    common = cmd_blit_field_vsync ∷ u32_bytes o.frame ++ (o.field ∷ u16_bytes o.vsync)

length-blit_layout : (o : BlitOpts) → length (blit_layout o) ≡ blit_header_length o
unfolding blit_layout blit_header_length
length-blit_layout o = ground arith

pub build_blit_header-blit_layout : (o : BlitOpts) → build_blit_header o ≡ blit_layout o
unfolding build_blit_header
build_blit_header-blit_layout o = fill_blit_header_cover o _ (length-replicate _ 0)

-- Wherever the header fits into the capacity of the caller's slice, whatever the slice's length,
-- `BuildBlitHeaderInto` returns a slice of the header that `BuildBlitHeader` builds: nothing of the
-- array's former contents shows in it, and the array is unchanged behind it. Where it does not fit
-- into the capacity, there is a panic.
pub build_blit_header_into_fresh :
    (dst : Slice) (o : BlitOpts)
    → build_blit_header_into dst o ≡ (
        if ltb (length dst.array) (blit_header_length o)
        then none
        else some (record {
          array = build_blit_header o ++ drop (blit_header_length o) dst.array;
          len = length (build_blit_header o);
        }))
build_blit_header_into_fresh dst o =
    let n = blit_header_length o in
    elim (Bool-cases (ltb (length dst.array) n)) [
      | inl short ↦ unfold build_blit_header_into in rw short
      | inr long ↦
          unfold build_blit_header_into in
          rw (
            long,
            build_blit_header-blit_layout o,
            length-blit_layout o,
            fill_blit_header_cover o (take n dst.array)
                (omega (arith, ltb-false→le _ _ long, length-take n dst.array)),
          )
    ]
