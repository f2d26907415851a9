-- ===== src/Prelude/Bits.antt =====
-- Bit operations at every width, and a number as the list of its low bits, lowest first.
use Prim.Native.Nat.{
  ℕ, zero, suc, ◌+◌, ◌-◌, ◌*◌, ◌/◌, ◌%◌, ◌^◌, ◌≤◌, ◌<◌, min, max, digits, bit_and, bit_or,
  bit_and-bitwise, bit_or-bitwise, bitwise,
}
use mathlib.Core.Path.{◌≡◌, refl, ap, sym, ◌∙◌}
use mi_ster_groovy_relay.Prelude.Lists.{length, replicate}
use mathlib.Core.List.{List, [], ◌∷◌, ◌++◌}
use native.Mathlib.Omega.{arith}
use native.Mathlib.Nat.{
  pow-suc, one-le-pow, le_refl, pow-le-pow_right, div-lt_iff_lt-mul, mod-lt, mod-eq_of_lt,
  mod-add-div', add-mul-mod_self_right,
}

-- The lowest digit of an operation that works bit by bit.
module _ (z : ℕ → ℕ) (f : ℕ → ℕ → ℕ) where
  digits-eq_of_le : (n m a b : ℕ) → a ≤ n → a ≤ m → digits z f n a b ≡ digits z f m a b
  digits-eq_of_le zero zero a b p q = refl
  digits-eq_of_le zero (suc m) zero b p q = refl
  digits-eq_of_le zero (suc m) (suc a) b p q = absurd (omega arith)
  digits-eq_of_le (suc n) zero zero b p q = refl
  digits-eq_of_le (suc n) zero (suc a) b p q = absurd (omega arith)
  digits-eq_of_le (suc n) (suc m) zero b p q = refl
  digits-eq_of_le (suc n) (suc m) (suc a) b p q =
      rw (digits-eq_of_le n m (suc a / 2) (b / 2) (omega arith) (omega arith))

  bitwise_low :
      (a b : ℕ)
      → bitwise z f (suc a) b ≡ bitwise z f (suc a / 2) (b / 2) * 2 + f (suc a % 2) (b % 2)
  bitwise_low a b =
      omega (arith, digits-eq_of_le a (suc a / 2) (suc a / 2) (b / 2) (omega arith) (le_refl _))

bit_or_low : (a b : ℕ) → bit_or a b ≡ bit_or (a / 2) (b / 2) * 2 + max (a % 2) (b % 2)
bit_or_low zero b = simp bit_or-bitwise (omega arith)
bit_or_low (suc a) b = simp bit_or-bitwise (bitwise_low (λ y. y) max a b)

bit_and_low : (a b : ℕ) → bit_and a b ≡ bit_and (a / 2) (b / 2) * 2 + min (a % 2) (b % 2)
bit_and_low zero b = simp bit_and-bitwise (omega arith)
bit_and_low (suc a) b = simp bit_and-bitwise (bitwise_low (λ y. 0) min a b)

zero-bit_or : (b : ℕ) → bit_or 0 b ≡ b
zero-bit_or b = simp bit_or-bitwise refl

bit_and-zero_below : (n a : ℕ) → a ≤ n → bit_and a 0 ≡ 0
bit_and-zero_below zero zero h = refl
bit_and-zero_below zero (suc a) h = absurd (omega arith)
bit_and-zero_below (suc n) zero h = refl
bit_and-zero_below (suc n) (suc a) h =
    omega (arith, bit_and_low (suc a) 0, bit_and-zero_below n (suc a / 2) (omega arith))

pub two_pow_suc : (k : ℕ) → 2 ^ suc k ≡ 2 * 2 ^ k
two_pow_suc k = omega (arith, pow-suc 2 k)

mul-two_pow_suc : (b k : ℕ) → b * 2 ^ suc k ≡ 2 * (b * 2 ^ k)
mul-two_pow_suc b k = omega (arith, ap (λ (t : ℕ). b * t) (two_pow_suc k))

pub two_pow_pos : (k : ℕ) → 1 ≤ 2 ^ k
two_pow_pos k = one-le-pow k 2 (omega arith)

-- `a | b << k` is a sum where `a` fits `k` bits.
pub bit_or-shift : (k a b : ℕ) → a < 2 ^ k → bit_or a (b * 2 ^ k) ≡ a + b * 2 ^ k
bit_or-shift zero a b h =
    let e : a ≡ 0 = omega arith in rw e (omega (arith, zero-bit_or (b * 2 ^ 0)))
bit_or-shift (suc k) a b h = omega (
  arith,
  bit_or_low a (b * 2 ^ suc k),
  mul-two_pow_suc b k,
  two_pow_suc k,
  ap (λ (t : ℕ). bit_or (a / 2) t)
      (let e : b * 2 ^ suc k / 2 ≡ b * 2 ^ k = omega (arith, mul-two_pow_suc b k) in e),
  bit_or-shift k (a / 2) b (omega (arith, two_pow_suc k)),
)

mod-double : (a k : ℕ) → a % 2 ^ suc k ≡ a / 2 % 2 ^ k * 2 + a % 2
mod-double a k =
    let r : ℕ = a / 2 % 2 ^ k in
    let q : ℕ = a / 2 / 2 ^ k in
    let e : a ≡ r * 2 + a % 2 + q * 2 ^ suc k =
      omega (arith, mod-add-div' (a / 2) (2 ^ k), mul-two_pow_suc q k) in
    let h : r * 2 + a % 2 < 2 ^ suc k =
      omega (arith, mod-lt (a / 2) (two_pow_pos k), two_pow_suc k) in
    ap (λ t. t % 2 ^ suc k) e
    ∙ add-mul-mod_self_right (r * 2 + a % 2) q (2 ^ suc k)
    ∙ mod-eq_of_lt h

-- `a & (1 << k - 1)` is the remainder by `2 ^ k`.
pub bit_and-mask : (k a : ℕ) → bit_and a (2 ^ k - 1) ≡ a % 2 ^ k
bit_and-mask zero a = rw (bit_and-zero_below a a (le_refl a)) (omega arith)
bit_and-mask (suc k) a = omega (
  arith,
  bit_and_low a (2 ^ suc k - 1),
  two_pow_suc k,
  two_pow_pos k,
  ap (λ (t : ℕ). bit_and (a / 2) t)
      (let e : (2 ^ suc k - 1) / 2 ≡ 2 ^ k - 1 = omega (arith, two_pow_suc k, two_pow_pos k) in e),
  bit_and-mask k (a / 2),
  mod-double a k,
)

-- The `n` low bits of a number, lowest first, and the number of a list of bits.
abbrev pub bits : ℕ → ℕ → List ℕ
bits zero v = []
bits (suc n) v = v % 2 ∷ bits n (v / 2)

abbrev pub from_bits : List ℕ → ℕ
from_bits [] = 0
from_bits (b ∷ bs) = b + 2 * from_bits bs

pub from_bits-bits : (n v : ℕ) → v < 2 ^ n → from_bits (bits n v) ≡ v
from_bits-bits zero v h = omega arith
from_bits-bits (suc n) v h = omega (arith, from_bits-bits n (v / 2) (omega (arith, two_pow_suc n)))

-- A field of `n` bits below one of `m` bits.
pub bits-fields : (n m a b : ℕ) → a < 2 ^ n → bits (n + m) (a + b * 2 ^ n) ≡ bits n a ++ bits m b
bits-fields zero m a b h =
    let e : a + b * 2 ^ 0 ≡ b = omega arith in let f : 0 + m ≡ m = omega arith in rw (f, e)
bits-fields (suc n) m a b h =
    let e : suc n + m ≡ suc (n + m) = omega arith in
    let low : (a + b * 2 ^ suc n) % 2 ≡ a % 2 = omega (arith, mul-two_pow_suc b n) in
    let high : (a + b * 2 ^ suc n) / 2 ≡ a / 2 + b * 2 ^ n = omega (arith, mul-two_pow_suc b n) in
    rw (e, low, high, bits-fields n m (a / 2) b (omega (arith, two_pow_suc n)))

pub div-add-mod_two_pow : (n v : ℕ) → v % 2 ^ n + v / 2 ^ n * 2 ^ n ≡ v
div-add-mod_two_pow n v = mod-add-div' v (2 ^ n)

-- The low `n` bits and those above them.
pub bits-split : (n m v : ℕ) → bits (n + m) v ≡ bits n (v % 2 ^ n) ++ bits m (v / 2 ^ n)
bits-split n m v =
    let h : v % 2 ^ n < 2 ^ n = omega (arith, two_pow_pos n) in
    let e : v ≡ v % 2 ^ n + v / 2 ^ n * 2 ^ n = sym (div-add-mod_two_pow n v) in
    ap (bits (n + m)) e ∙ bits-fields n m (v % 2 ^ n) (v / 2 ^ n) h

pub bits-mod : (n v : ℕ) → bits n (v % 2 ^ n) ≡ bits n v
bits-mod zero v = refl
bits-mod (suc n) v =
    let low : v % 2 ^ suc n % 2 ≡ v % 2 = omega (arith, mod-double v n) in
    let high : v % 2 ^ suc n / 2 ≡ v / 2 % 2 ^ n = omega (arith, mod-double v n) in
    rw (low, high, bits-mod n (v / 2))

pub two_pow_add : (a b : ℕ) → 2 ^ (a + b) ≡ 2 ^ a * 2 ^ b
two_pow_add zero b = let e : 0 + b ≡ b = omega arith in rw e (omega arith)
two_pow_add (suc a) b =
    let e : suc a + b ≡ suc (a + b) = omega arith in
    rw e (
      omega
        (arith, two_pow_suc (a + b), two_pow_add a b, ap (λ (t : ℕ). t * 2 ^ b) (two_pow_suc a)))

-- The bits above the low `k` fit what is left of the width.
pub div-lt-two_pow : (k m v : ℕ) → v < 2 ^ (k + m) → v / 2 ^ k < 2 ^ m
div-lt-two_pow k m v h =
    (div-lt_iff_lt-mul {k = 2 ^ k} {x = v} {y = 2 ^ m} (omega (arith, two_pow_pos k))).1
      (omega (arith, two_pow_add k m))

-- Two fields together fit both widths.
pub fields-lt : (k m a b : ℕ) → a < 2 ^ k → b < 2 ^ m → a + b * 2 ^ k < 2 ^ (k + m)
fields-lt k m a b p q = rw (two_pow_add k m) (grind arith)

pub two_pow_le : (a b : ℕ) → a ≤ b → 2 ^ a ≤ 2 ^ b
two_pow_le a b h = pow-le-pow_right (omega arith) h

pub length-bits : (n v : ℕ) → length (bits n v) ≡ n
length-bits zero v = refl
length-bits (suc n) v = ap suc (length-bits n (v / 2))

bit_or-zero_below : (n a : ℕ) → a ≤ n → bit_or a 0 ≡ a
bit_or-zero_below zero zero h = refl
bit_or-zero_below zero (suc a) h = absurd (omega arith)
bit_or-zero_below (suc n) zero h = refl
bit_or-zero_below (suc n) (suc a) h =
    omega (arith, bit_or_low (suc a) 0, bit_or-zero_below n (suc a / 2) (omega arith))

-- `b << k | a` is the same sum.
pub shift-bit_or : (k a b : ℕ) → a < 2 ^ k → bit_or (b * 2 ^ k) a ≡ a + b * 2 ^ k
shift-bit_or zero a b h =
    let e : a ≡ 0 = omega arith in
    rw e (omega (arith, bit_or-zero_below (b * 2 ^ 0) (b * 2 ^ 0) (le_refl _)))
shift-bit_or (suc k) a b h = omega (
  arith,
  bit_or_low (b * 2 ^ suc k) a,
  mul-two_pow_suc b k,
  two_pow_suc k,
  ap (λ (t : ℕ). bit_or t (a / 2))
      (let e : b * 2 ^ suc k / 2 ≡ b * 2 ^ k = omega (arith, mul-two_pow_suc b k) in e),
  shift-bit_or k (a / 2) b (omega (arith, two_pow_suc k)),
)

-- `1 << q` in `q + 1` bits is `q` zeros and a one.
pub bits-unary : (q : ℕ) → bits (q + 1) (2 ^ q) ≡ replicate q 0 ++ (1 ∷ [])
bits-unary zero = refl
bits-unary (suc q) =
    let e : suc q + 1 ≡ suc (q + 1) = omega arith in
    let low : 2 ^ suc q % 2 ≡ 0 = omega (arith, two_pow_suc q) in
    let high : 2 ^ suc q / 2 ≡ 2 ^ q = omega (arith, two_pow_suc q) in
    rw (e, low, high, bits-unary q)
