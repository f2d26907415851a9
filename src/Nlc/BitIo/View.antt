-- ===== src/Nlc/BitIo/View.antt =====
-- internal/groovy/nlc/codec.go: the sequence of bits that a writer has taken, and that a reader has
-- yet to give.
use mi_ster_groovy_relay.Prelude.{
  ℕ, ◌*◌, ◌^◌, ◌≤◌, ◌<◌, ◌≡◌, refl, sym, false, List, [], ◌∷◌, ◌++◌, append_assoc, arith, length,
  take, drop,
}
use mi_ster_groovy_relay.Prelude.Bits.{bits}
use mi_ster_groovy_relay.Nlc.BitIo.{BitW, BitR}

-- The bits of a list of bytes.
abbrev pub byte_bits : List ℕ → List ℕ
byte_bits [] = []
byte_bits (b ∷ bs) = bits 8 b ++ byte_bits bs

pub byte_bits-append : (bs cs : List ℕ) → byte_bits (bs ++ cs) ≡ byte_bits bs ++ byte_bits cs
byte_bits-append [] cs = refl
byte_bits-append (b ∷ bs) cs =
    rw (byte_bits-append bs cs) (sym (append_assoc (bits 8 b) (byte_bits bs) (byte_bits cs)))

abbrev pub written : BitW → List ℕ
written w = byte_bits (take w.n w.buf) ++ bits w.nbits w.acc

-- Between calls: what is pending fits its bits and is less than a word, and every byte that was
-- counted is in the buffer unless the overflow is recorded.
pub record IsReady (w : BitW) : Type 0 where
  pub pending : w.acc < 2 ^ w.nbits
  pub small : w.nbits < 32
  pub inside : w.ovf ≡ false → w.n ≤ length w.buf

abbrev pub remaining : BitR → List ℕ
remaining r = bits r.nbits r.acc ++ byte_bits (drop r.n r.buf)

abbrev pub AllBytes : List ℕ → Type 0
AllBytes [] = Unit
AllBytes (b ∷ bs) = (b < 256) × AllBytes bs

pub length-byte_bits : (bs : List ℕ) → length (byte_bits bs) ≡ 8 * length bs
length-byte_bits [] = refl
length-byte_bits (b ∷ bs) = omega (arith, length-byte_bits bs)
