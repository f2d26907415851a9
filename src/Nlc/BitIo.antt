-- ===== src/Nlc/BitIo.antt =====
-- internal/groovy/nlc/codec.go: the bit writer and reader, lowest bit first. `acc` is a uint64, and
-- `x & (1<<nb - 1)` is `% 2 ^ nb`.
pub mod View
pub mod Flush
pub mod Fits
pub mod Write
pub mod Finish
pub mod Read
pub mod Bytes
use Prim.Native.Nat.{bit_or}
use mi_ster_groovy_relay.Prelude.{
  ℕ, zero, suc, ◌+◌, ◌-◌, ◌*◌, ◌/◌, ◌%◌, ◌^◌, Bool, true, false, List, ltb, leb, ◌==◌,
  if◌then◌else◌, length, set, get_or,
}

-- `buf` has the writer's capacity for its length.
pub record BitW : Type 0 where
  pub buf : List ℕ
  pub n : ℕ
  pub acc : ℕ
  pub nbits : ℕ
  pub ovf : Bool

unfoldable pub init_w : List ℕ → BitW
init_w b = record { buf = b; n = 0; acc = 0; nbits = 0; ovf = false }

-- One byte out of the accumulator; it is counted even where it does not fit.
pub emit : BitW → BitW
emit w =
    let fits = ltb w.n (length w.buf) in
    record w {
      buf = if fits then set w.buf w.n (w.acc % 256) else w.buf;
      ovf = if fits then w.ovf else true;
      n = w.n + 1;
    }

-- `for w.nbits >= 8 { … }`: the first argument bounds the rounds.
flush_loop : ℕ → BitW → BitW
unfolding emit
flush_loop zero w = w
flush_loop (suc rounds) w =
    let w' = emit w in
    let rest = flush_loop rounds (record w' { acc = w.acc / 256; nbits = w.nbits - 8 }) in
    if leb 8 w.nbits then rest else w

-- Each round takes 8 of the `nbits` bits.
pub flush_bytes : BitW → BitW
unfolding flush_loop
flush_bytes w = flush_loop w.nbits w

-- The four stores of the fast path.
abbrev store_four : BitW → List ℕ
store_four w =
    let b = set w.buf w.n (w.acc % 256) in
    let b = set b (w.n + 1) (w.acc / 2 ^ 8 % 256) in
    let b = set b (w.n + 2) (w.acc / 2 ^ 16 % 256) in set b (w.n + 3) (w.acc / 2 ^ 24 % 256)

pub flush_word : BitW → BitW
unfolding flush_bytes
flush_word w =
    if leb 32 w.nbits
    then (if leb (w.n + 4) (length w.buf)
        then record w {
          buf = store_four w;
          n = w.n + 4;
          acc = w.acc / 2 ^ 32;
          nbits = w.nbits - 32;
        }
        else flush_bytes w)
    else w

unfoldable pub put : BitW → ℕ → ℕ → BitW
unfolding flush_word
put w val nb =
    let masked = val % 2 ^ nb in
    let acc = bit_or w.acc (masked * 2 ^ w.nbits % 2 ^ 64) in
    if nb == 0 then w else flush_word (record w { acc = acc; nbits = w.nbits + nb })

-- The writer after `finish`, whose `n` is the result.
unfoldable pub finish : BitW → BitW
unfolding flush_bytes emit
finish w =
    let w' = flush_bytes w in if ltb 0 w'.nbits then record (emit w') { acc = 0; nbits = 0 } else w'

pub record BitR : Type 0 where
  pub buf : List ℕ
  pub n : ℕ
  pub acc : ℕ
  pub nbits : ℕ
  pub overrun : Bool

unfoldable pub init_r : List ℕ → BitR
init_r b = record { buf = b; n = 0; acc = 0; nbits = 0; overrun = false }

-- Past the end of the segment the bits are zero.
pub load_byte : BitR → BitR
load_byte r =
    let inside = ltb r.n (length r.buf) in
    let b = (if inside then get_or r.buf r.n 0 else 0) in
    record r {
      overrun = if inside then r.overrun else true;
      n = r.n + 1;
      acc = bit_or r.acc (b * 2 ^ r.nbits % 2 ^ 64);
      nbits = r.nbits + 8;
    }

-- `for r.nbits < nb { … }`
pub load_loop : ℕ → ℕ → BitR → BitR
unfolding load_byte
load_loop zero nb r = r
load_loop (suc rounds) nb r =
    let rest = load_loop rounds nb (load_byte r) in if ltb r.nbits nb then rest else r

-- Each round adds 8 bits, so `nb` rounds are enough.
unfoldable pub get : BitR → ℕ → ℕ × BitR
unfolding load_loop
get r nb =
    let r' = load_loop nb nb r in
    let v = r'.acc % 2 ^ 32 % 2 ^ nb in
    if nb == 0 then (0, r) else (v, record r' { acc = r'.acc / 2 ^ nb; nbits = r'.nbits - nb })
