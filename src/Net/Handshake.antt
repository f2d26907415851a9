-- ===== src/Net/Handshake.antt =====
-- internal/groovynet/sender.go: the two exchanges that await a reply. A list is what the successive
-- reads of the socket return; past its end every read times out. The setting of a deadline does not
-- fail here.
pub mod Fresh
pub mod Retry
use mi_ster_groovy_relay.Prelude.{
  ℕ, zero, suc, ◌+◌, ◌-◌, ◌*◌, Bool, true, false, not, ◌||◌, Option, none, some, List, [], ◌∷◌,
  ◌++◌, ltb, ◌==◌, if◌then◌else◌, length, get_or, take,
}
use mi_ster_groovy_relay.Groovy.{cmd_init, ack_packet_size}
use mi_ster_groovy_relay.Groovy.Ack.{Ack, parse_ack}
use mi_ster_groovy_relay.Groovy.Core.{build_get_version}
use mi_ster_groovy_relay.Net.Sender.{Sender, SendError, send}

pub data Read : Type 0 where
  datagram : List ℕ → Read
  timed_out : Read
  failed : Read

pub data Reply : Type 0 where
  acked : Ack → Reply
  -- The error of ParseACK, which no packet of the right length has.
  bad_ack : Reply
  ack_timeout : Reply
  read_failed : Reply
  send_failed : SendError → Reply
  not_init : Reply

-- The datagrams that are dropped and the reads that are left: up to the first error, which ends the
-- draining, or `rounds` datagrams.
unfoldable pub drain : ℕ → List Read → ℕ × List Read
drain zero reads = (0, reads)
drain (suc rounds) [] = (0, [])
drain (suc rounds) (timed_out ∷ reads) = (0, reads)
drain (suc rounds) (failed ∷ reads) = (0, reads)
drain (suc rounds) (datagram d ∷ reads) = let (n, rest) = drain rounds reads in (n + 1, rest)

unfoldable pub flush_stale_datagrams : List Read → ℕ × List Read
unfolding drain
flush_stale_datagrams reads = drain 4096 reads

unfoldable pub parse_reply : List ℕ → Reply
parse_reply p = elim (parse_ack p) [ some a ↦ acked a | none ↦ bad_ack ]

-- A read fills a buffer of two ACK packets at most.
unfoldable pub await_ack : List Read → Reply × List Read
unfolding parse_reply
await_ack [] = (ack_timeout, [])
await_ack (timed_out ∷ reads) = (ack_timeout, reads)
await_ack (failed ∷ reads) = (read_failed, reads)
await_ack (datagram d ∷ reads) =
    let buf = take (ack_packet_size * 2) d in
    let later = await_ack reads in
    if not (length buf == ack_packet_size) then later else (parse_reply buf, reads)

-- `written` holds the INIT packets that the socket took.
pub record Exchange : Type 0 where
  pub written : List (List ℕ)
  pub sender : Sender
  pub reply : Reply
  pub reads : List Read

-- `outcome` is the error of the write of INIT, and `now` its time.
unfoldable pub send_init_await_ack : Sender → List ℕ → Option SendError → ℕ → List Read → Exchange
unfolding flush_stale_datagrams await_ack
send_init_await_ack s init_packet outcome now reads =
    let (flushed, fresh) = flush_stale_datagrams reads in
    let (s', error) = send s outcome now in
    let (reply, rest) = await_ack fresh in
    if (length init_packet == 0) || not (get_or init_packet 0 0 == cmd_init)
    then record { written = []; sender = s; reply = not_init; reads = reads }
    else (elim error [
      | some e ↦ record { written = []; sender = s'; reply = send_failed e; reads = fresh }
      | none ↦ record { written = init_packet ∷ []; sender = s'; reply = reply; reads = rest }
    ])

-- `IsInitACKTimeout`
abbrev pub is_init_ack_timeout : Reply → Bool
is_init_ack_timeout ack_timeout = true
is_init_ack_timeout r = false

-- `left` more attempts after the `n`-th.
unfoldable pub retry_from :
    Sender → List ℕ → (ℕ → Option SendError) → (ℕ → ℕ) → ℕ → ℕ → List Read → Exchange
unfolding send_init_await_ack
retry_from s init_packet outcome now zero n reads =
    send_init_await_ack s init_packet (outcome n) (now n) reads
retry_from s init_packet outcome now (suc left) n reads =
    let x = send_init_await_ack s init_packet (outcome n) (now n) reads in
    let next = retry_from x.sender init_packet outcome now left (n + 1) x.reads in
    if not (is_init_ack_timeout x.reply)
    then x
    else record next { written = x.written ++ next.written }

-- The last exchange, with what all of them wrote; the first attempt is number 1.
unfoldable pub send_init_await_ack_with_retry :
    Sender → List ℕ → (ℕ → Option SendError) → (ℕ → ℕ) → ℕ → List Read → Exchange
unfolding retry_from
send_init_await_ack_with_retry s init_packet outcome now attempts reads =
    let attempts = (if ltb attempts 1 then 1 else attempts) in
    retry_from s init_packet outcome now (attempts - 1) 1 reads

pub data Version : Type 0 where
  version : ℕ → Version
  version_read_failed : Version
  version_send_failed : SendError → Version

-- A timeout is version 0. A read fills a buffer of 64 bytes at most.
unfoldable pub await_version : List Read → Version × List Read
await_version [] = (version 0, [])
await_version (timed_out ∷ reads) = (version 0, reads)
await_version (failed ∷ reads) = (version_read_failed, reads)
await_version (datagram d ∷ reads) =
    let buf = take 64 d in
    let later = await_version reads in
    if length buf == 1 then (version (get_or buf 0 0), reads) else later

unfoldable pub probe_version :
    Sender → Option SendError → ℕ → List Read → Sender × Version × List Read
unfolding flush_stale_datagrams await_version
probe_version s outcome now reads =
    let (flushed, fresh) = flush_stale_datagrams reads in
    let (s', error) = send s outcome now in
    let (v, rest) = await_version fresh in
    elim error [ some e ↦ (s', version_send_failed e, fresh) | none ↦ (s', v, rest) ]
