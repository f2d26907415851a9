-- ===== src/Nlc/BitIo/Write.antt =====
-- internal/groovy/nlc/codec.go: the bits that a writer takes.
use mi_ster_groovy_relay.Nlc.BitIo.Fits.{loaded, put_fits, length-written}
use mi_ster_groovy_relay.Prelude.Bits.{length-bits}
use mi_ster_groovy_relay.Prelude.{
  ℕ, zero, suc, ◌+◌, ◌*◌, ◌%◌, ◌^◌, ◌≤◌, ◌<◌, ◌≡◌, refl, sym, ap, ◌∙◌, ◌≢◌, false, List, [], ◌++◌,
  append_assoc, append-nil, arith, length, length-append, take,
}
use Prim.Native.Nat.{bit_or}
use native.Mathlib.Nat.{mod-lt, mod-eq_of_lt}
use mi_ster_groovy_relay.Prelude.Bits.{
  bits, bit_or-shift, bits-fields, bits-mod, two_pow_pos, two_pow_le, fields-lt,
}
use mi_ster_groovy_relay.Nlc.BitIo.{BitW, flush_word, put}
use mi_ster_groovy_relay.Nlc.BitIo.View.{byte_bits, written, IsReady}
use mi_ster_groovy_relay.Nlc.BitIo.Flush.{IsWriter, Same, flush_word-Same}

-- `acc | (val & mask) << nbits` is a sum: the fields do not overlap and fit 64 bits.
pub or-add :
    (acc nbits field nb : ℕ)
    → acc < 2 ^ nbits
    → field < 2 ^ nb
    → nbits + nb ≤ 64
    → bit_or acc (field * 2 ^ nbits % 2 ^ 64) ≡ acc + field * 2 ^ nbits
or-add acc nbits field nb p q h =
    let fits : acc + field * 2 ^ nbits < 2 ^ (nbits + nb) = fields-lt nbits nb acc field p q in
    let wide : 2 ^ (nbits + nb) ≤ 2 ^ 64 = two_pow_le (nbits + nb) 64 h in
    rw (mod-eq_of_lt {n = field * 2 ^ nbits} {m = 2 ^ 64} (omega (arith, fits, wide)))
      (bit_or-shift nbits acc field p)

module _ (w : BitW) (val nb : ℕ) (v : IsReady w) (small : nb ≤ 24) where
  acc-loaded : (loaded w val nb).acc ≡ w.acc + val % 2 ^ nb * 2 ^ w.nbits
  acc-loaded =
      or-add w.acc w.nbits (val % 2 ^ nb) nb v.pending (mod-lt val (two_pow_pos nb))
        (omega (arith, v.small))

  loaded-IsWriter : IsWriter (loaded w val nb)
  loaded-IsWriter = record {
    pending =
        rw acc-loaded
          (fields-lt w.nbits nb w.acc (val % 2 ^ nb) v.pending (mod-lt val (two_pow_pos nb)));
    inside = v.inside;
  }

  written-loaded : written (loaded w val nb) ≡ written w ++ bits nb val
  written-loaded =
      rw (acc-loaded, bits-fields w.nbits nb w.acc (val % 2 ^ nb) v.pending, bits-mod nb val)
        (sym (append_assoc (byte_bits (take w.n w.buf)) (bits w.nbits w.acc) (bits nb val)))

  flushed :
      Same (loaded w val nb) (flush_word (loaded w val nb))
      × ((flush_word (loaded w val nb)).nbits < 32)
  flushed = flush_word-Same (loaded w val nb) loaded-IsWriter (omega (arith, v.small))

  put_nonzero : nb ≢ 0 → put w val nb ≡ flush_word (loaded w val nb)
  unfolding put
  put_nonzero h = ground arith

-- `w'` has taken the bits `more` after those of `w`, unless it overflowed.
pub record Took (w : BitW) (more : List ℕ) (w' : BitW) : Type 0 where
  pub ready : IsReady w'
  pub size : length w'.buf ≡ length w.buf
  pub clean : w'.ovf ≡ false → (w.ovf ≡ false) × (written w' ≡ written w ++ more)
  pub fits : w.ovf ≡ false → length (written w ++ more) ≤ 8 * length w.buf → w'.ovf ≡ false

pub Took-nil : (w : BitW) → IsReady w → Took w [] w
Took-nil w v = record {
  fits = λ e h. e;
  ready = v;
  size = refl;
  clean = λ e. (e, sym (append-nil (written w)));
}

pub Took-append : (u v w : BitW) (xs ys : List ℕ) → Took u xs v → Took v ys w → Took u (xs ++ ys) w
Took-append u v w xs ys p q = record {
  fits = λ e h.
      let l = length-append (written u) (xs ++ ys) in
      let f = p.fits e (omega (arith, h, l, length-append xs ys, length-append (written u) xs)) in
      let (g, t) = p.clean f in
      q.fits f (
        omega (
          arith,
          h,
          l,
          p.size,
          ap length t,
          length-append (written v) ys,
          length-append xs ys,
          length-append (written u) xs,
        ));
  ready = q.ready;
  size = q.size ∙ p.size;
  clean = λ e.
      let (f, s) = q.clean e in
      let (g, t) = p.clean f in (g, s ∙ ap (λ r. r ++ ys) t ∙ append_assoc (written u) xs ys);
}

put_room :
    (w : BitW) (val nb : ℕ)
    → IsReady w
    → w.ovf ≡ false
    → length (written w ++ bits nb val) ≤ 8 * length w.buf
    → (put w val nb).ovf ≡ false
put_room w val nb v e h = put_fits w val nb e (
    omega (
      arith,
      h,
      length-append (written w) (bits nb val),
      length-bits nb val,
      length-written w (v.inside e),
    ))

-- `put` on a writer that is ready appends the `nb` low bits of its value, at most 24, and overflows
-- only where they do not fit.
pub put-Took : (w : BitW) (val nb : ℕ) → IsReady w → nb ≤ 24 → Took w (bits nb val) (put w val nb)
put-Took w val zero v small = unfold put in Took-nil w v
put-Took w val (suc nb) v small =
    let (s, less) = flushed w val (suc nb) v small in
    let e : put w val (suc nb) ≡ flush_word (loaded w val (suc nb)) =
      put_nonzero w val (suc nb) v small (omega arith) in
    record {
      ready = rw e (record { pending = s.writer.pending; small = less; inside = s.writer.inside });
      size = rw e s.size;
      clean = rw e (λ x. let (f, t) = s.clean x in (f, t ∙ written-loaded w val (suc nb) v small));
      fits = put_room w val (suc nb) v;
    }
