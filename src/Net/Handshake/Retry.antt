-- ===== src/Net/Handshake/Retry.antt =====
-- internal/groovynet/sender.go: which attempt of the INIT handshake is the last.
use mi_ster_groovy_relay.Prelude.{
  ℕ, zero, suc, ◌+◌, ◌-◌, ◌≤◌, ◌<◌, ◌≡◌, refl, sym, ap, ◌∙◌, inl, inr, true, false, not, ◌||◌,
  Option, List, [], ◌∷◌, ◌++◌, arith, ltb, ◌==◌, if◌then◌else◌, Bool-cases, Option-cases, length,
  get_or, replicate,
}
use mi_ster_groovy_relay.Groovy.{cmd_init}
use mi_ster_groovy_relay.Net.Sender.{Sender, SendError, send}
use mi_ster_groovy_relay.Net.Handshake.{
  Read, Exchange, send_init_await_ack, is_init_ack_timeout, retry_from,
  send_init_await_ack_with_retry,
}

module _ (p : List ℕ) (outcome : ℕ → Option SendError) (now : ℕ → ℕ) where
  -- The exchange of the attempt that comes `k` after the `n`-th, each from what the one before it
  -- left, whatever the replies.
  abbrev pub attempt : Sender → List Read → ℕ → ℕ → Exchange
  attempt s reads n zero = send_init_await_ack s p (outcome n) (now n) reads
  attempt s reads n (suc k) =
      let x = send_init_await_ack s p (outcome n) (now n) reads in
      attempt x.sender x.reads (n + 1) k

  -- The exchange `x` is that of the first attempt that does not end by a timeout, or of the last of
  -- `left + 1`, and INIT was written once by each attempt before it.
  pub record Retried (s : Sender) (reads : List Read) (n left : ℕ) (x : Exchange) : Type 0 where
    pub at : ℕ
    pub at_most : at ≤ left
    pub same : x ≡ record (attempt s reads n at) {
      written = replicate at p ++ (attempt s reads n at).written;
    }
    pub earlier : (j : ℕ) → j < at → is_init_ack_timeout (attempt s reads n j).reply ≡ true
    pub exhausted : is_init_ack_timeout x.reply ≡ true → at ≡ left

  -- An exchange that ends by a timeout has written INIT.
  send_init_await_ack-written :
      (s : Sender) (o : Option SendError) (t : ℕ) (reads : List Read)
      → is_init_ack_timeout (send_init_await_ack s p o t reads).reply ≡ true
      → (send_init_await_ack s p o t reads).written ≡ p ∷ []
  unfolding send_init_await_ack
  send_init_await_ack-written s o t reads h =
      elim (Bool-cases ((length p == 0) || not (get_or p 0 0 == cmd_init))) [
        | inl other ↦ let e : false ≡ true = rw other at h in absurd (ground arith)
        | inr init ↦ elim (Option-cases (send s o t).1) [
          | inr (e, failed) ↦ let e : false ≡ true = rw (init, failed) at h in absurd (ground arith)
          | inl taken ↦ rw (init, taken) refl
        ]
      ]

  earlier-suc :
      (s : Sender) (reads : List Read) (n at : ℕ)
      → let x = send_init_await_ack s p (outcome n) (now n) reads in
        is_init_ack_timeout x.reply ≡ true
        → ((j : ℕ) → j < at → is_init_ack_timeout (attempt x.sender x.reads (n + 1) j).reply ≡ true)
        → (j : ℕ) → j < suc at
        → is_init_ack_timeout (attempt s reads n j).reply ≡ true
  earlier-suc s reads n at late h zero k = late
  earlier-suc s reads n at late h (suc j) k = h j (omega (arith, k))

  -- One more attempt before the others, which ends by a timeout.
  one_more_attempt :
      (s : Sender) (left n : ℕ) (reads : List Read) (y : Exchange)
      → let x = send_init_await_ack s p (outcome n) (now n) reads in
        is_init_ack_timeout x.reply ≡ true
        → Retried x.sender x.reads (n + 1) left y
        → Retried s reads n (suc left) (record y { written = x.written ++ y.written })
  one_more_attempt s left n reads y late r =
      let w = send_init_await_ack-written s (outcome n) (now n) reads late in
      record {
        at = suc r.at;
        at_most = omega (arith, r.at_most);
        same = rw w (ap (λ (z : Exchange). record z { written = (p ∷ []) ++ z.written }) r.same);
        earlier = earlier-suc s reads n r.at late r.earlier;
        exhausted = λ h. ap suc (r.exhausted h);
      }

  retry_from-Retried :
      (s : Sender) (left n : ℕ) (reads : List Read)
      → Retried s reads n left (retry_from s p outcome now left n reads)
  unfolding retry_from
  retry_from-Retried s zero n reads = record {
    at = 0;
    at_most = omega arith;
    same = refl;
    earlier = λ j h. absurd (omega (arith, h));
    exhausted = λ h. refl;
  }
  retry_from-Retried s (suc left) n reads =
      let x = send_init_await_ack s p (outcome n) (now n) reads in
      elim (Bool-cases (is_init_ack_timeout x.reply)) [
        | inl late ↦ rw late (
            one_more_attempt s left n reads _ late
              (retry_from-Retried x.sender left (n + 1) x.reads))
        | inr done ↦ rw done (record {
          at = 0;
          at_most = omega arith;
          same = refl;
          earlier = λ j h. absurd (omega (arith, h));
          exhausted = λ h. (let c : true ≡ false = sym h ∙ done in absurd (ground arith));
        })
      ]

  -- The exchange that `SendInitAwaitACKWithRetry` ends with is that of the first attempt that does
  -- not time out, or that of the last of the attempts asked for (one, if none is), each attempt
  -- going on from what the one before it left. INIT is written once by every attempt before that
  -- one, and never after it.
  pub send_init_await_ack_with_retry_lem :
      (s : Sender) (attempts : ℕ) (reads : List Read)
      → Retried s reads 1
          (attempts - 1)
          (send_init_await_ack_with_retry s p outcome now attempts reads)
  unfolding send_init_await_ack_with_retry
  send_init_await_ack_with_retry_lem s attempts reads =
      let e : (if ltb attempts 1 then 1 else attempts) - 1 ≡ attempts - 1 = ground arith in
      rw e (retry_from-Retried s (attempts - 1) 1 reads)
