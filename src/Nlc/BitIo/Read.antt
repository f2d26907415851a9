-- ===== src/Nlc/BitIo/Read.antt =====
-- internal/groovy/nlc/codec.go: the fields that a reader gives.
use mathlib.Core.Path.{subst}
use native.Mathlib.Nat.{mod-lt, mod-eq_of_lt}
use mi_ster_groovy_relay.Prelude.{
  ℕ, zero, suc, ◌+◌, ◌-◌, ◌*◌, ◌/◌, ◌%◌, ◌^◌, ◌≤◌, ◌<◌, ◌≡◌, refl, sym, ap, ◌∙◌, ◌≢◌, inl, inr,
  false, List, [], ◌∷◌, ◌++◌, append_assoc, arith, ltb, ltb→lt, lt→ltb, Bool-cases, length,
  length-append, get_or, drop, length-drop, ltb-false→le, append_cancel, drop-get_or,
}
use mi_ster_groovy_relay.Prelude.Bits.{
  from_bits, two_pow_pos, from_bits-bits, two_pow_le, div-lt-two_pow, bits-split, bits, bits-fields,
  length-bits, fields-lt,
}
use mi_ster_groovy_relay.Nlc.BitIo.{get, BitR, init_r, load_byte, load_loop}
use mi_ster_groovy_relay.Nlc.BitIo.View.{byte_bits, remaining, AllBytes, length-byte_bits}
use mi_ster_groovy_relay.Nlc.BitIo.Write.{or-add}

-- Between calls: fewer than 32 bits are loaded, and no byte was read past the end.
pub record IsLoaded (r : BitR) : Type 0 where
  pub pending : r.acc < 2 ^ r.nbits
  pub inside : r.n ≤ length r.buf
  pub bytes : AllBytes r.buf
  pub bounded : r.nbits < 32
  pub clean : r.overrun ≡ false

pub init_r-IsLoaded : (bs : List ℕ) → AllBytes bs → IsLoaded (init_r bs)
unfolding init_r
init_r-IsLoaded bs h = record {
  pending = omega arith;
  inside = omega arith;
  bytes = h;
  bounded = omega arith;
  clean = refl;
}

get_or-lt : (bs : List ℕ) (i : ℕ) → AllBytes bs → get_or bs i 0 < 256
get_or-lt [] i h = omega arith
get_or-lt (b ∷ bs) zero (h, hs) = h
get_or-lt (b ∷ bs) (suc i) (h, hs) = get_or-lt bs i hs

length-remaining : (r : BitR) → length (remaining r) ≡ r.nbits + 8 * (length r.buf - r.n)
length-remaining r = omega (
  arith,
  length-append (bits r.nbits r.acc) (byte_bits (drop r.n r.buf)),
  length-bits r.nbits r.acc,
  length-byte_bits (drop r.n r.buf),
  length-drop r.n r.buf,
)

-- One byte more is loaded: the same bits remain.
module _ (r : BitR) (v : IsLoaded r) (small : r.nbits < 24) (more : r.n < length r.buf) where
  abbrev next : ℕ
  next = get_or r.buf r.n 0

  load_byte_eq :
      load_byte r ≡ record r { n = r.n + 1; acc = r.acc + next * 2 ^ r.nbits; nbits = r.nbits + 8 }
  unfolding load_byte
  load_byte_eq = rw (
    lt→ltb _ _ more,
    or-add r.acc r.nbits next 8 v.pending (get_or-lt r.buf r.n v.bytes) (omega arith),
  )

  load_byte-IsLoaded : IsLoaded (load_byte r)
  load_byte-IsLoaded = rw load_byte_eq (record {
    pending = fields-lt r.nbits 8 r.acc next v.pending (get_or-lt r.buf r.n v.bytes);
    inside = omega arith;
    bytes = v.bytes;
    bounded = omega arith;
    clean = v.clean;
  })

  remaining-load_byte : remaining (load_byte r) ≡ remaining r
  remaining-load_byte =
      rw (load_byte_eq, bits-fields r.nbits 8 r.acc next v.pending, drop-get_or r.buf r.n 0 more)
        (append_assoc (bits r.nbits r.acc) (bits 8 next) (byte_bits (drop (r.n + 1) r.buf)))

  nbits-load_byte : (load_byte r).nbits ≡ r.nbits + 8
  nbits-load_byte = ap (λ s. s.nbits) load_byte_eq

record Filled (nb : ℕ) (r r' : BitR) : Type 0 where
  loaded : IsLoaded r'
  same : remaining r' ≡ remaining r
  enough : nb ≤ r'.nbits

load_loop-Filled :
    (rounds nb : ℕ) (r : BitR)
    → IsLoaded r
    → nb ≤ 24
    → nb ≤ r.nbits + rounds
    → nb ≤ length (remaining r)
    → Filled nb r (load_loop rounds nb r)
unfolding load_loop
load_loop-Filled zero nb r v small h l = record { loaded = v; same = refl; enough = omega arith }
load_loop-Filled (suc rounds) nb r v small h l = elim (Bool-cases (ltb r.nbits nb)) [
  | inr done ↦ rw done (record { loaded = v; same = refl; enough = ltb-false→le _ _ done })
  | inl less ↦
      let p = ltb→lt _ _ less in
      let few : r.nbits < 24 = omega arith in
      let more : r.n < length r.buf = omega (arith, length-remaining r) in
      let n = nbits-load_byte r v few more in
      let same = remaining-load_byte r v few more in
      let f =
        load_loop-Filled rounds nb (load_byte r) (load_byte-IsLoaded r v few more) small
          (omega (arith, n)) (rw same l) in
      rw less (record { loaded = f.loaded; same = f.same ∙ same; enough = f.enough })
]

-- A reader whose bits begin with a field gives that field, and goes on behind it.
pub record Gave (v : ℕ) (rest : List ℕ) (out : ℕ × BitR) : Type 0 where
  pub value : out.0 ≡ v
  pub loaded : IsLoaded out.1
  pub behind : remaining out.1 ≡ rest

module _ (r : BitR) (nb v : ℕ) (rest : List ℕ) (ready : IsLoaded r) (small : nb ≤ 24)
    (fits : v < 2 ^ nb) (begins : remaining r ≡ bits nb v ++ rest) where
  abbrev full : BitR
  full = load_loop nb nb r

  filled : Filled nb r full
  filled =
      load_loop-Filled nb nb r ready small (omega arith)
        (omega (arith, ap length begins, length-append (bits nb v) rest, length-bits nb v))

  abbrev above : ℕ
  above = full.nbits - nb

  split :
      (bits nb (full.acc % 2 ^ nb) ≡ bits nb v)
      × (bits above (full.acc / 2 ^ nb) ++ byte_bits (drop full.n full.buf) ≡ rest)
  split =
      let e : full.nbits ≡ nb + above = omega (arith, filled.enough) in
      append_cancel (bits nb (full.acc % 2 ^ nb)) (bits nb v) _ rest
        (length-bits nb (full.acc % 2 ^ nb) ∙ sym (length-bits nb v))
        (sym (
            append_assoc (bits nb (full.acc % 2 ^ nb)) (bits above (full.acc / 2 ^ nb))
              (byte_bits (drop full.n full.buf)))
          ∙ ap (λ t. t ++ byte_bits (drop full.n full.buf))
              (sym (bits-split nb above full.acc) ∙ ap (λ n. bits n full.acc) (sym e))
          ∙ filled.same
          ∙ begins)

  value : full.acc % 2 ^ 32 % 2 ^ nb ≡ v
  value =
      let wide : 2 ^ full.nbits ≤ 2 ^ 32 =
        two_pow_le full.nbits 32 (omega (arith, filled.loaded.bounded)) in
      rw (mod-eq_of_lt {n = full.acc} {m = 2 ^ 32} (omega (arith, filled.loaded.pending, wide))) (
        sym (from_bits-bits nb (full.acc % 2 ^ nb) (mod-lt full.acc (two_pow_pos nb)))
        ∙ ap from_bits split.0
        ∙ from_bits-bits nb v fits)

  abbrev taken : BitR
  taken = record full { acc = full.acc / 2 ^ nb; nbits = full.nbits - nb }

  taken-IsLoaded : IsLoaded taken
  taken-IsLoaded = record {
    pending = div-lt-two_pow nb above full.acc (
        let e : full.nbits ≡ nb + above = omega (arith, filled.enough) in
        subst (λ n. full.acc < 2 ^ n) e filled.loaded.pending);
    inside = filled.loaded.inside;
    bytes = filled.loaded.bytes;
    bounded = omega (arith, filled.loaded.bounded);
    clean = filled.loaded.clean;
  }

  get_nonzero : nb ≢ 0 → get r nb ≡ (full.acc % 2 ^ 32 % 2 ^ nb, taken)
  unfolding get
  get_nonzero h = ground arith

-- A valid reader whose bits begin with a field of `nb` bits, at most 24, gives that field, and goes
-- on behind it.
pub get-Gave :
    (r : BitR) (nb v : ℕ) (rest : List ℕ)
    → IsLoaded r
    → nb ≤ 24
    → v < 2 ^ nb
    → remaining r ≡ bits nb v ++ rest
    → Gave v rest (get r nb)
unfolding get
get-Gave r zero v rest l s f b = record { value = omega arith; loaded = l; behind = b }
get-Gave r (suc nb) v rest l s f b =
    rw (get_nonzero r (suc nb) v rest l s f b (omega arith)) (record {
      value = value r (suc nb) v rest l s f b;
      loaded = taken-IsLoaded r (suc nb) v rest l s f b;
      behind = (split r (suc nb) v rest l s f b).1;
    })
