-- ===== src/Nlc/BitIo/Flush.antt =====
-- internal/groovy/nlc/codec.go: flushing the writer's accumulator.
use mathlib.Core.Path.{subst}
use mi_ster_groovy_relay.Prelude.{
  ℕ, zero, suc, ◌+◌, ◌-◌, ◌/◌, ◌%◌, ◌^◌, ◌≤◌, ◌<◌, ◌≡◌, refl, sym, ap, ◌∙◌, inl, inr, true, false,
  List, [], ◌∷◌, ◌++◌, append_assoc, append-nil, arith, ltb, leb, ltb→lt, lt→ltb, leb→le,
  Bool-cases, length, set, length-set, take, leb-false→lt, take-set_end,
}
use mi_ster_groovy_relay.Prelude.Bits.{div-lt-two_pow, bits, bits-split, bits-mod}
use mi_ster_groovy_relay.Nlc.BitIo.{flush_word, store_four, flush_bytes, flush_loop, BitW, emit}
use mi_ster_groovy_relay.Nlc.BitIo.View.{byte_bits, byte_bits-append, written}

-- What holds of a writer in the middle of a flush, too.
pub record IsWriter (w : BitW) : Type 0 where
  pub pending : w.acc < 2 ^ w.nbits
  pub inside : w.ovf ≡ false → w.n ≤ length w.buf

-- `w'` has taken the same bits as `w`, in a buffer of the same size.
pub record Same (w w' : BitW) : Type 0 where
  pub writer : IsWriter w'
  pub size : length w'.buf ≡ length w.buf
  pub clean : w'.ovf ≡ false → (w.ovf ≡ false) × (written w' ≡ written w)

Same-trans : (u v w : BitW) → Same u v → Same v w → Same u w
Same-trans u v w p q = record {
  writer = q.writer;
  size = q.size ∙ p.size;
  clean = λ e. let (f, s) = q.clean e in let (g, t) = p.clean f in (g, s ∙ t);
}

byte_bits-end : (bs : List ℕ) (v : ℕ) → byte_bits (bs ++ (v % 256 ∷ [])) ≡ byte_bits bs ++ bits 8 v
byte_bits-end bs v =
    byte_bits-append bs (v % 256 ∷ []) ∙ ap (λ t. byte_bits bs ++ t) (append-nil _ ∙ bits-mod 8 v)

-- The bits of `v` from a width that is known to be at least 8.
bits-byte : (k v : ℕ) → 8 ≤ k → bits k v ≡ bits 8 v ++ bits (k - 8) (v / 256)
bits-byte k v h =
    let e : k ≡ 8 + (k - 8) = omega arith in
    ap (λ n. bits n v) e
    ∙ bits-split 8 (k - 8) v
    ∙ ap (λ t. t ++ bits (k - 8) (v / 256)) (bits-mod 8 v)

module _ (w : BitW) (v : IsWriter w) where
  -- Where the byte fits, it is appended to those in the buffer.
  pub emit_lem :
      ((emit w).ovf ≡ false)
      → (w.ovf ≡ false)
        × (w.n < length w.buf)
        × (byte_bits (take (emit w).n (emit w).buf) ≡ byte_bits (take w.n w.buf) ++ bits 8 w.acc)
  unfolding emit
  emit_lem e = elim (Bool-cases (ltb w.n (length w.buf))) [
    | inl fits ↦
        let h = ltb→lt _ _ fits in
        (
          rw fits at e,
          h,
          rw (fits, take-set_end w.buf w.n (w.acc % 256) h) (byte_bits-end (take w.n w.buf) w.acc),
        )
    | inr full ↦ absurd (let x : true ≡ false = rw full at e in cc)
  ]

  pub length-emit : length (emit w).buf ≡ length w.buf
  unfolding emit
  length-emit = elim (Bool-cases (ltb w.n (length w.buf))) [
    | inl fits ↦ rw fits (length-set w.buf w.n (w.acc % 256))
    | inr full ↦ rw full
  ]

abbrev shifted : BitW → BitW
shifted w = record (emit w) { acc = w.acc / 256; nbits = w.nbits - 8 }

shifted-Same : (w : BitW) → IsWriter w → 8 ≤ w.nbits → Same w (shifted w)
shifted-Same w v h = record {
  writer = record {
    pending = div-lt-two_pow 8 (w.nbits - 8) w.acc (
        let e : w.nbits ≡ 8 + (w.nbits - 8) = omega arith in
        subst (λ n. w.acc < 2 ^ n) e v.pending);
    inside = λ e.
        let (o, fits, s) = emit_lem w v e in unfold emit in omega (arith, length-emit w v, fits);
  };
  size = length-emit w v;
  clean = λ e.
      let (o, fits, s) = emit_lem w v e in
      (
        o,
        ap (λ t. t ++ bits (w.nbits - 8) (w.acc / 256)) s
            ∙ append_assoc (byte_bits (take w.n w.buf)) (bits 8 w.acc)
                (bits (w.nbits - 8) (w.acc / 256))
            ∙ ap (λ t. byte_bits (take w.n w.buf) ++ t) (sym (bits-byte w.nbits w.acc h)),
      );
}

Same-refl : (w : BitW) → IsWriter w → Same w w
Same-refl w v = record { writer = v; size = refl; clean = λ e. (e, refl) }

flush_loop-Same :
    (rounds : ℕ) (w : BitW)
    → IsWriter w
    → w.nbits ≤ rounds
    → Same w (flush_loop rounds w) × ((flush_loop rounds w).nbits < 8)
unfolding flush_loop
flush_loop-Same zero w v h = (Same-refl w v, omega arith)
flush_loop-Same (suc rounds) w v h = elim (Bool-cases (leb 8 w.nbits)) [
  | inl more ↦
      let s = shifted-Same w v (leb→le _ _ more) in
      let (t, small) = flush_loop-Same rounds (shifted w) s.writer (omega arith) in
      rw more (Same-trans w (shifted w) _ s t, small)
  | inr done ↦ rw done (Same-refl w v, leb-false→lt _ _ done)
]

pub flush_bytes-Same :
    (w : BitW) → IsWriter w → Same w (flush_bytes w) × ((flush_bytes w).nbits < 8)
unfolding flush_bytes
flush_bytes-Same w v = flush_loop-Same w.nbits w v (omega arith)

-- A flush of one byte that fits.
abbrev byte_step : BitW → BitW
byte_step w = record w {
  buf = set w.buf w.n (w.acc % 256);
  n = w.n + 1;
  acc = w.acc / 256;
  nbits = w.nbits - 8;
}

fits-shifted : (w : BitW) → w.n < length w.buf → shifted w ≡ byte_step w
unfolding emit
fits-shifted w h = rw (lt→ltb _ _ h)

-- The fast path writes the low word of the accumulator: it does what four single bytes do.
abbrev stored : BitW → BitW
stored w = record w { buf = store_four w; n = w.n + 4; acc = w.acc / 2 ^ 32; nbits = w.nbits - 32 }

four_bytes :
    (w : BitW) → w.n + 4 ≤ length w.buf → shifted (shifted (shifted (shifted w))) ≡ stored w
four_bytes w h =
    let w₁ = byte_step w in
    let w₂ = byte_step w₁ in
    let w₃ = byte_step w₂ in
    let l₁ : length w₁.buf ≡ length w.buf = length-set w.buf w.n (w.acc % 256) in
    let l₂ : length w₂.buf ≡ length w₁.buf = length-set w₁.buf w₁.n (w₁.acc % 256) in
    let l₃ : length w₃.buf ≡ length w₂.buf = length-set w₂.buf w₂.n (w₂.acc % 256) in
    rw
      (
        fits-shifted w (omega arith),
        fits-shifted w₁ (omega (arith, l₁)),
        fits-shifted w₂ (omega (arith, l₁, l₂)),
        fits-shifted w₃ (omega (arith, l₁, l₂, l₃)),
      )
      (ground arith)

stored-Same : (w : BitW) → IsWriter w → w.n + 4 ≤ length w.buf → 32 ≤ w.nbits → Same w (stored w)
stored-Same w v room full =
    let w₁ = shifted w in
    let w₂ = shifted w₁ in
    let w₃ = shifted w₂ in
    let s₁ = shifted-Same w v (omega arith) in
    let s₂ = shifted-Same w₁ s₁.writer (omega arith) in
    let s₃ = shifted-Same w₂ s₂.writer (omega arith) in
    let s₄ = shifted-Same w₃ s₃.writer (omega arith) in
    rw (← four_bytes w room)
      (Same-trans w w₁ _ s₁ (Same-trans w₁ w₂ _ s₂ (Same-trans w₂ w₃ _ s₃ s₄)))

pub flush_word-Same :
    (w : BitW) → IsWriter w → w.nbits < 64 → Same w (flush_word w) × ((flush_word w).nbits < 32)
unfolding flush_word
flush_word-Same w v h = elim (Bool-cases (leb 32 w.nbits)) [
  | inr less ↦ rw less (Same-refl w v, leb-false→lt _ _ less)
  | inl full ↦ elim (Bool-cases (leb (w.n + 4) (length w.buf))) [
    | inl room ↦ rw (full, room) (stored-Same w v (leb→le _ _ room) (leb→le _ _ full), omega arith)
    | inr short ↦
        let (s, small) = flush_bytes-Same w v in rw (full, short) (s, omega (arith, small))
  ]
]
