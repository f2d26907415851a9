-- ===== src/Nlc/BitIo/Fits.antt =====
-- internal/groovy/nlc/codec.go: when a writer overflows.
use Prim.Native.Nat.{bit_or}
use mi_ster_groovy_relay.Prelude.{
  ℕ, zero, suc, ◌+◌, ◌-◌, ◌*◌, ◌/◌, ◌%◌, ◌^◌, ◌≤◌, ◌<◌, ◌≡◌, refl, ◌∙◌, inl, inr, false, arith, leb,
  ◌==◌, lt→ltb, leb→le, Bool-cases, length, length-append, length-set, take, length-take,
  leb-false→lt,
}
use mi_ster_groovy_relay.Prelude.Bits.{bits, length-bits}
use mi_ster_groovy_relay.Nlc.BitIo.{BitW, emit, flush_loop, flush_bytes, flush_word, put}
use mi_ster_groovy_relay.Nlc.BitIo.View.{byte_bits, written, length-byte_bits}

-- The bits that were counted, in bytes and pending.
abbrev count : BitW → ℕ
count w = 8 * w.n + w.nbits

-- `w'` holds as many bits as `w`, in a buffer of the same size, and has not overflowed.
abbrev Kept : BitW → BitW → Type 0
Kept w w' = (w'.ovf ≡ false) × (count w' ≡ count w) × (length w'.buf ≡ length w.buf)

emit_fits :
    (w : BitW)
    → w.ovf ≡ false
    → w.n < length w.buf
    → ((emit w).ovf ≡ false) × ((emit w).n ≡ w.n + 1) × (length (emit w).buf ≡ length w.buf)
unfolding emit
emit_fits w o h = rw (lt→ltb _ _ h) (o, refl, length-set w.buf w.n (w.acc % 256))

flush_loop_fits :
    (rounds : ℕ) (w : BitW)
    → w.ovf ≡ false
    → count w ≤ 8 * length w.buf
    → w.nbits ≤ rounds
    → Kept w (flush_loop rounds w) × ((flush_loop rounds w).nbits < 8)
unfolding flush_loop
flush_loop_fits zero w o h r = ((o, refl, refl), omega arith)
flush_loop_fits (suc rounds) w o h r = elim (Bool-cases (leb 8 w.nbits)) [
  | inr done ↦ rw done ((o, refl, refl), leb-false→lt _ _ done)
  | inl more ↦
      let more' = leb→le _ _ more in
      let (f, n, size) = emit_fits w o (omega arith) in
      let ((f', c, size'), small) =
        flush_loop_fits rounds (record (emit w) { acc = w.acc / 256; nbits = w.nbits - 8 }) f
          (omega (arith, n, size)) (omega arith) in
      rw more ((f', omega (arith, c, n), size' ∙ size), small)
]

pub flush_bytes_fits :
    (w : BitW)
    → w.ovf ≡ false
    → 8 * w.n + w.nbits ≤ 8 * length w.buf
    → ((flush_bytes w).ovf ≡ false)
      × (8 * (flush_bytes w).n + (flush_bytes w).nbits ≡ 8 * w.n + w.nbits)
      × (length (flush_bytes w).buf ≡ length w.buf)
      × ((flush_bytes w).nbits < 8)
unfolding flush_bytes
flush_bytes_fits w o h =
    let ((f, c, size), small) = flush_loop_fits w.nbits w o h (omega arith) in (f, c, size, small)

flush_word_fits :
    (w : BitW) → w.ovf ≡ false → count w ≤ 8 * length w.buf → (flush_word w).ovf ≡ false
unfolding flush_word
flush_word_fits w o h = elim (Bool-cases (leb 32 w.nbits)) [
  | inr less ↦ rw less o
  | inl full ↦ elim (Bool-cases (leb (w.n + 4) (length w.buf))) [
    | inl room ↦ rw (full, room) o
    | inr short ↦ rw (full, short) (flush_bytes_fits w o h).0
  ]
]

pub length-written : (w : BitW) → w.n ≤ length w.buf → length (written w) ≡ 8 * w.n + w.nbits
length-written w h = omega (
  arith,
  length-append (byte_bits (take w.n w.buf)) (bits w.nbits w.acc),
  length-byte_bits (take w.n w.buf),
  length-take w.n w.buf,
  length-bits w.nbits w.acc,
)

-- The writer with a field of `nb` bits in its accumulator, before any flush.
abbrev pub loaded : BitW → ℕ → ℕ → BitW
loaded w val nb = record w {
  acc = bit_or w.acc (val % 2 ^ nb * 2 ^ w.nbits % 2 ^ 64);
  nbits = w.nbits + nb;
}

pub put_fits :
    (w : BitW) (val nb : ℕ)
    → w.ovf ≡ false
    → 8 * w.n + w.nbits + nb ≤ 8 * length w.buf
    → (put w val nb).ovf ≡ false
unfolding put
put_fits w val zero o h = o
put_fits w val (suc nb) o h = elim (Bool-cases (suc nb == 0)) [
  | inl e ↦ absurd (ground arith)
  | inr e ↦ rw e (flush_word_fits (loaded w val (suc nb)) o (omega arith))
]
