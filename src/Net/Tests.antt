-- ===== src/Net/Tests.antt =====
-- internal/groovynet/sender.go: the theorems at short packets.
use mi_ster_groovy_relay.Prelude.{
  ℕ, zero, suc, ◌*◌, ◌<◌, ◌≡◌, refl, ◌⊎◌, Option, none, some, List, [], ◌∷◌, ◌++◌, map, arith,
  length, take, replicate, concat,
}
use mi_ster_groovy_relay.Groovy.{cmd_init, max_datagram}
use mi_ster_groovy_relay.Net.Sender.{Sender, send, SendError, other_error, send_payload, count_full}
use mi_ster_groovy_relay.Net.Sender.Chunks.{AllSized, send_payload_lem}
use mi_ster_groovy_relay.Groovy.Ack.{parse_ack}
use mi_ster_groovy_relay.Net.Handshake.{
  Read, datagram, timed_out, parse_reply, send_init_await_ack, send_init_await_ack_with_retry,
}
use mi_ster_groovy_relay.Net.Handshake.Fresh.{send_init_await_ack-fresh}
use mi_ster_groovy_relay.Net.Handshake.Retry.{Retried, send_init_await_ack_with_retry_lem}

abbrev idle_sender : Sender
idle_sender = record {
  enobuf_count = 0;
  last_send = 0;
  payload_send_start = none;
  last_blit_size = 0;
  last_blit_time = 0;
}

-- The second write fails.
abbrev second_fails : ℕ → Option SendError
second_fails zero = none
second_fails (suc n) = some other_error

send_payload_lem_example :
    let r = send_payload idle_sender second_fails 5 9 (replicate 2000 7) in
    (concat r.datagrams ≡ take (length r.datagrams * max_datagram) (replicate 2000 7))
    × AllSized r.datagrams
    × ((j : ℕ) → j < length r.datagrams → second_fails j ≡ none)
    × (((r.error ≡ none) × (concat r.datagrams ≡ replicate 2000 7) × (r.sender.last_send ≡ 9))
        ⊎ ((e : SendError) × (r.error ≡ some e)
            × (second_fails (length r.datagrams) ≡ some e)
            × (r.sender ≡ count_full (record idle_sender { payload_send_start = some 5 }) e)))
send_payload_lem_example = send_payload_lem idle_sender second_fails 5 9 (replicate 2000 7)

abbrev init_tail : List ℕ
init_tail = 1 ∷ 3 ∷ 2 ∷ 0 ∷ []

abbrev stale_ack : List ℕ
stale_ack = replicate 13 1

abbrev ack : List ℕ
ack = replicate 13 0

send_init_await_ack-fresh_example :
    let x = send_init_await_ack idle_sender (cmd_init ∷ init_tail) none 7 (
      map datagram (stale_ack ∷ [])
      ++ (timed_out ∷ (map datagram ((2 ∷ []) ∷ []) ++ (datagram ack ∷ [])))) in
    (x.reply ≡ parse_reply ack)
    × (x.reads ≡ [])
    × (x.sender.last_send ≡ 7)
    × (x.written ≡ (cmd_init ∷ init_tail) ∷ [])
send_init_await_ack-fresh_example =
    send_init_await_ack-fresh idle_sender init_tail 7 (stale_ack ∷ []) ((2 ∷ []) ∷ []) ack []
      (omega arith) (omega arith, tt) refl

-- The first attempt times out, the second is answered, and a third is not made.
abbrev late_ack : List Read
late_ack = timed_out ∷ timed_out ∷ timed_out ∷ datagram ack ∷ []

send_init_await_ack_with_retry_lem_example :
    Retried
      (cmd_init ∷ init_tail)
      (λ n. none)
      (λ n. n)
      idle_sender
      late_ack
      1
      2
      (send_init_await_ack_with_retry idle_sender
        (cmd_init ∷ init_tail)
        (λ n. none)
        (λ n. n)
        3
        late_ack)
send_init_await_ack_with_retry_lem_example =
    send_init_await_ack_with_retry_lem (cmd_init ∷ init_tail) (λ n. none) (λ n. n) idle_sender 3
      late_ack

answered_late :
    (send_init_await_ack_with_retry idle_sender
      (cmd_init ∷ init_tail)
      (λ n. none)
      (λ n. n)
      3
      late_ack).written
    ≡ (cmd_init ∷ init_tail) ∷ (cmd_init ∷ init_tail) ∷ []
unfolding send_init_await_ack_with_retry send parse_ack
answered_late = refl
