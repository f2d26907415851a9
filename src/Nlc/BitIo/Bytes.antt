-- ===== src/Nlc/BitIo/Bytes.antt =====
-- internal/groovy/nlc/codec.go: the bytes of a writer's buffer.
use native.Mathlib.Nat.{mod-lt}
use mi_ster_groovy_relay.Nlc.BitIo.Fits.{loaded}
use mi_ster_groovy_relay.Prelude.{
  ℕ, zero, suc, ◌+◌, ◌-◌, ◌/◌, ◌%◌, ◌^◌, ◌<◌, inl, inr, List, [], ◌∷◌, ◌++◌, arith, ltb, leb, ◌==◌,
  Bool-cases, length, set, take, drop, replicate,
}
use mi_ster_groovy_relay.Nlc.BitIo.{
  BitW, emit, flush_loop, flush_bytes, store_four, flush_word, put, finish,
}
use mi_ster_groovy_relay.Nlc.BitIo.View.{AllBytes}

set-AllBytes : (bs : List ℕ) (i v : ℕ) → AllBytes bs → v < 256 → AllBytes (set bs i v)
set-AllBytes [] i v h k = tt
set-AllBytes (b ∷ bs) zero v (h, hs) k = (k, hs)
set-AllBytes (b ∷ bs) (suc i) v (h, hs) k = (h, set-AllBytes bs i v hs k)

pub append-AllBytes : (bs cs : List ℕ) → AllBytes bs → AllBytes cs → AllBytes (bs ++ cs)
append-AllBytes [] cs h k = k
append-AllBytes (b ∷ bs) cs (h, hs) k = (h, append-AllBytes bs cs hs k)

pub drop-AllBytes : (n : ℕ) (bs : List ℕ) → AllBytes bs → AllBytes (drop n bs)
drop-AllBytes zero bs h = h
drop-AllBytes (suc n) [] h = tt
drop-AllBytes (suc n) (b ∷ bs) (h, hs) = drop-AllBytes n bs hs

pub zeros-AllBytes : (n : ℕ) → AllBytes (replicate n 0)
zeros-AllBytes zero = tt
zeros-AllBytes (suc n) = (omega arith, zeros-AllBytes n)

pub take-AllBytes : (n : ℕ) (bs : List ℕ) → AllBytes bs → AllBytes (take n bs)
take-AllBytes zero bs h = tt
take-AllBytes (suc n) [] h = tt
take-AllBytes (suc n) (b ∷ bs) (h, hs) = (h, take-AllBytes n bs hs)

emit-AllBytes : (w : BitW) → AllBytes w.buf → AllBytes (emit w).buf
unfolding emit
emit-AllBytes w h = elim (Bool-cases (ltb w.n (length w.buf))) [
  | inl fits ↦ rw fits (set-AllBytes w.buf w.n (w.acc % 256) h (omega arith))
  | inr full ↦ rw full h
]

flush_loop-AllBytes : (rounds : ℕ) (w : BitW) → AllBytes w.buf → AllBytes (flush_loop rounds w).buf
unfolding flush_loop
flush_loop-AllBytes zero w h = h
flush_loop-AllBytes (suc rounds) w h = elim (Bool-cases (leb 8 w.nbits)) [
  | inl more ↦ rw more (
      flush_loop-AllBytes rounds (record (emit w) { acc = w.acc / 256; nbits = w.nbits - 8 })
        (emit-AllBytes w h))
  | inr done ↦ rw done h
]

store_four-AllBytes : (w : BitW) → AllBytes w.buf → AllBytes (store_four w)
store_four-AllBytes w h =
    set-AllBytes _ (w.n + 3) _
      (set-AllBytes _ (w.n + 2) _
        (set-AllBytes _ (w.n + 1) _ (set-AllBytes w.buf w.n _ h (omega arith))
          (mod-lt (w.acc / 2 ^ 8) (omega arith)))
        (mod-lt (w.acc / 2 ^ 16) (omega arith)))
      (mod-lt (w.acc / 2 ^ 24) (omega arith))

flush_bytes-AllBytes : (w : BitW) → AllBytes w.buf → AllBytes (flush_bytes w).buf
unfolding flush_bytes
flush_bytes-AllBytes w h = flush_loop-AllBytes w.nbits w h

flush_word-AllBytes : (w : BitW) → AllBytes w.buf → AllBytes (flush_word w).buf
unfolding flush_word
flush_word-AllBytes w h = elim (Bool-cases (leb 32 w.nbits)) [
  | inr less ↦ rw less h
  | inl full ↦ elim (Bool-cases (leb (w.n + 4) (length w.buf))) [
    | inl room ↦ rw (full, room) (store_four-AllBytes w h)
    | inr short ↦ rw (full, short) (flush_bytes-AllBytes w h)
  ]
]

pub put-AllBytes : (w : BitW) (val nb : ℕ) → AllBytes w.buf → AllBytes (put w val nb).buf
unfolding put
put-AllBytes w val nb h = elim (Bool-cases (nb == 0)) [
  | inl e ↦ rw e h
  | inr e ↦ rw e (flush_word-AllBytes (loaded w val nb) h)
]

pub finish-AllBytes : (w : BitW) → AllBytes w.buf → AllBytes (finish w).buf
unfolding finish
finish-AllBytes w h = elim (Bool-cases (ltb 0 (flush_bytes w).nbits)) [
  | inl e ↦ rw e (emit-AllBytes (flush_bytes w) (flush_bytes-AllBytes w h))
  | inr e ↦ rw e (flush_bytes-AllBytes w h)
]
