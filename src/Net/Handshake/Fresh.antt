-- ===== src/Net/Handshake/Fresh.antt =====
-- internal/groovynet/sender.go: which datagram the INIT handshake takes as its reply.
use mi_ster_groovy_relay.Prelude.{
  ℕ, zero, suc, ◌+◌, ◌<◌, ◌≡◌, refl, ◌≢◌, true, false, none, List, [], ◌∷◌, ◌++◌, map, arith, ◌==◌,
  ==_iff, length, take, length-take, take_all,
}
use mi_ster_groovy_relay.Groovy.{cmd_init}
use mi_ster_groovy_relay.Net.Sender.{Sender, send}
use mi_ster_groovy_relay.Net.Handshake.{
  Read, datagram, timed_out, drain, flush_stale_datagrams, parse_reply, await_ack,
  send_init_await_ack,
}

-- Datagrams, none of the length of an ACK.
abbrev pub NoneAck : List (List ℕ) → Type 0
NoneAck [] = Unit
NoneAck (d ∷ ds) = (length d ≢ 13) × NoneAck ds

drain-stale :
    (rounds : ℕ) (stale : List (List ℕ)) (reads : List Read)
    → length stale < rounds
    → drain rounds (map datagram stale ++ (timed_out ∷ reads)) ≡ (length stale, reads)
unfolding drain
drain-stale zero stale reads h = absurd (omega arith)
drain-stale (suc rounds) [] reads h = refl
drain-stale (suc rounds) (d ∷ stale) reads h =
    rw (drain-stale rounds stale reads (omega arith))
      (let e : length stale + 1 ≡ suc (length stale) = omega arith in rw e refl)

await_ack-skip :
    (skipped : List (List ℕ)) (reads : List Read)
    → NoneAck skipped
    → await_ack (map datagram skipped ++ reads) ≡ await_ack reads
unfolding await_ack
await_ack-skip [] reads h = refl
await_ack-skip (d ∷ ds) reads (h, hs) =
    let e : (length (take 26 d) == 13) ≡ false = ground (arith, length-take 26 d) in
    rw e (await_ack-skip ds reads hs)

await_ack-hit :
    (a : List ℕ) (reads : List Read)
    → length a ≡ 13
    → await_ack (datagram a ∷ reads) ≡ (parse_reply a, reads)
unfolding await_ack
await_ack-hit a reads h =
    let f : take 26 a ≡ a = take_all 26 a (omega (arith, h)) in
    let e : (length a == 13) ≡ true = (==_iff _ _).1 h in rw (f, e) refl

-- Fewer than 4096 datagrams that were queued before INIT are dropped, ACKs among them, and so are
-- those after it that are no ACK: where INIT is written without an error, which is once, the reply
-- is the first datagram of 13 bytes after it, and what follows is not read.
pub send_init_await_ack-fresh :
    (s : Sender) (rest : List ℕ) (now : ℕ) (stale skipped : List (List ℕ)) (a : List ℕ)
    (reads : List Read)
    → length stale < 4096
    → NoneAck skipped
    → length a ≡ 13
    → let x =
        send_init_await_ack s
          (cmd_init ∷ rest)
          none
          now
          (map datagram stale ++ (timed_out ∷ (map datagram skipped ++ (datagram a ∷ reads)))) in
      (x.reply ≡ parse_reply a)
      × (x.reads ≡ reads)
      × (x.sender.last_send ≡ now)
      × (x.written ≡ (cmd_init ∷ rest) ∷ [])
unfolding send_init_await_ack flush_stale_datagrams send
send_init_await_ack-fresh s rest now stale skipped a reads h n e =
    let some_bytes : (length (cmd_init ∷ rest) == 0) ≡ false = ground arith in
    rw
      (
        some_bytes,
        drain-stale 4096 stale (map datagram skipped ++ (datagram a ∷ reads)) h,
        await_ack-skip skipped (datagram a ∷ reads) n,
        await_ack-hit a reads e,
      )
      (refl, refl, refl, refl)
