-- ===== src/Nlc/BitIo/Finish.antt =====
-- internal/groovy/nlc/codec.go: what a finished segment holds.
use mi_ster_groovy_relay.Nlc.BitIo.Fits.{flush_bytes_fits}
use mi_ster_groovy_relay.Prelude.{
  ℕ, zero, suc, ◌+◌, ◌-◌, ◌*◌, ◌^◌, ◌≤◌, ◌<◌, ◌≡◌, refl, sym, ap, ◌∙◌, inl, inr, false, List, [],
  ◌∷◌, ◌++◌, append_assoc, append-nil, arith, ltb, if◌then◌else◌, ltb→lt, lt→ltb, Bool-cases,
  length, length-append, take, replicate, length-take, length-replicate, ltb-false→le,
}
use native.Mathlib.Nat.{div-eq_of_lt}
use mi_ster_groovy_relay.Prelude.Bits.{bits, bits-split, bits-mod}
use mi_ster_groovy_relay.Nlc.BitIo.{BitW, emit, flush_bytes, finish}
use mi_ster_groovy_relay.Nlc.BitIo.View.{byte_bits, written, IsReady, length-byte_bits}
use mi_ster_groovy_relay.Nlc.BitIo.Flush.{IsWriter, emit_lem, length-emit, flush_bytes-Same}

bits-of_zero : (m : ℕ) → bits m 0 ≡ replicate m 0
bits-of_zero zero = refl
bits-of_zero (suc m) = ap (λ r. 0 ∷ r) (bits-of_zero m)

bits-none : (k v : ℕ) → k ≡ 0 → bits k v ≡ []
bits-none zero v h = refl
bits-none (suc k) v h = absurd (omega arith)

-- The last byte: the pending bits, and zeros above them.
last_byte : (k acc : ℕ) → k ≤ 8 → acc < 2 ^ k → bits 8 acc ≡ bits k acc ++ replicate (8 - k) 0
last_byte k acc h fits =
    let e : 8 ≡ k + (8 - k) = omega arith in
    ap (λ n. bits n acc) e
    ∙ bits-split k (8 - k) acc
    ∙ rw (div-eq_of_lt fits, bits-mod k acc, bits-of_zero (8 - k))

-- The segment: the bytes that `finish` counts hold the bits written, and fewer than 8 zeros.
pub record IsSegment (stream : List ℕ) (w : BitW) : Type 0 where
  pub inside : w.n ≤ length w.buf
  pub padding : ℕ
  pub padding_small : padding < 8
  pub holds : byte_bits (take w.n w.buf) ≡ stream ++ replicate padding 0

module _ (w : BitW) (v : IsWriter w) (small : w.nbits < 8) where
  abbrev closed : BitW
  closed = if ltb 0 w.nbits then record (emit w) { acc = 0; nbits = 0 } else w

  closed_lem : closed.ovf ≡ false → (w.ovf ≡ false) × IsSegment (written w) closed
  closed_lem e = elim (Bool-cases (ltb 0 w.nbits)) [
    | inl some_bits ↦
        let (f, fits, s) = emit_lem w v (rw some_bits at e) in
        (
          f,
          rw some_bits (record {
            inside = unfold emit in omega (arith, length-emit w v, fits);
            padding = 8 - w.nbits;
            padding_small = omega (arith, ltb→lt _ _ some_bits);
            holds =
                s
                ∙ ap (λ t. byte_bits (take w.n w.buf) ++ t)
                    (last_byte w.nbits w.acc (omega arith) v.pending)
                ∙ sym (
                    append_assoc (byte_bits (take w.n w.buf)) (bits w.nbits w.acc)
                      (replicate (8 - w.nbits) 0));
          }),
        )
    | inr no_bits ↦ (
      rw no_bits at e,
      rw no_bits (record {
        inside = v.inside (rw no_bits at e);
        padding = 0;
        padding_small = omega arith;
        holds =
            sym (append-nil (byte_bits (take w.n w.buf)))
            ∙ ap (λ t. byte_bits (take w.n w.buf) ++ t)
                (sym (bits-none w.nbits w.acc (omega (arith, ltb-false→le _ _ no_bits))))
            ∙ sym (append-nil (written w));
      }),
    )
  ]

-- The segment of a writer that is ready, finished without an overflow, holds exactly the bits
-- written, padded with fewer than 8 zeros to a byte.
pub finish-IsSegment :
    (w : BitW)
    → IsReady w
    → (finish w).ovf ≡ false
    → (w.ovf ≡ false) × IsSegment (written w) (finish w)
unfolding finish
finish-IsSegment w v e =
    let (s, small) = flush_bytes-Same w (record { pending = v.pending; inside = v.inside }) in
    let (f, seg) = closed_lem (flush_bytes w) s.writer small e in
    let (g, same) = s.clean f in (g, rw same at seg)

pub length-finish : (w : BitW) → IsReady w → length (finish w).buf ≡ length w.buf
unfolding finish
length-finish w v =
    let (s, small) = flush_bytes-Same w (record { pending = v.pending; inside = v.inside }) in
    elim (Bool-cases (ltb 0 (flush_bytes w).nbits)) [
      | inl some_bits ↦ rw some_bits (length-emit (flush_bytes w) s.writer ∙ s.size)
      | inr no_bits ↦ rw no_bits s.size
    ]

pub length-IsSegment :
    {stream : List ℕ} {w : BitW} → (g : IsSegment stream w) → 8 * w.n ≡ length stream + g.padding
length-IsSegment {stream} {w} g = omega (
  arith,
  ap length g.holds,
  length-byte_bits (take w.n w.buf),
  length-take w.n w.buf,
  length-append stream (replicate g.padding 0),
  length-replicate {A = ℕ} g.padding 0,
  g.inside,
)

-- `finish` overflows only where the bits do not fit the buffer.
pub finish_fits :
    (w : BitW) → w.ovf ≡ false → 8 * w.n + w.nbits ≤ 8 * length w.buf → (finish w).ovf ≡ false
unfolding finish emit
finish_fits w o h =
    let (f, count, size, small) = flush_bytes_fits w o h in
    elim (Bool-cases (ltb 0 (flush_bytes w).nbits)) [
      | inl some_bits ↦
          let less : (flush_bytes w).n < length (flush_bytes w).buf =
            omega (arith, ltb→lt _ _ some_bits, count, size, h) in
          rw (some_bits, lt→ltb _ _ less) f
      | inr no_bits ↦ rw no_bits f
    ]
