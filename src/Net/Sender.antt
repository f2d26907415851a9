-- ===== src/Net/Sender.antt =====
-- internal/groovynet/sender.go: sending. Times are nanoseconds since the Unix epoch, and what the
-- socket and the clock do is an argument. Each method holds the mutex for all that it does here.
-- Pacing is in `Pacer`: it changes when a datagram leaves, not which.
pub mod Chunks
use mi_ster_groovy_relay.Prelude.{
  ℕ, zero, suc, ◌+◌, ◌-◌, ◌*◌, ◌/◌, ◌%◌, ◌^◌, Bool, true, false, not, ◌&&◌, Option, none, some,
  List, [], ◌∷◌, ltb, leb, ◌==◌, if◌then◌else◌, length, take, drop,
}
use mi_ster_groovy_relay.Groovy.{max_datagram, congestion_size, congestion_wait}

pub data SendError : Type 0 where
  buffer_full : SendError
  other_error : SendError

-- `none` is the zero Time, and `last_send` is 0 before the first datagram.
pub record Sender : Type 0 where
  pub enobuf_count : ℕ
  pub last_send : ℕ
  pub payload_send_start : Option ℕ
  pub last_blit_size : ℕ
  pub last_blit_time : ℕ

-- The error of a socket write at time `now`, if it has one.
unfoldable pub send : Sender → Option SendError → ℕ → Sender × Option SendError
send s none now = (record s { last_send = now }, none)
send s (some e) now = (s, some e)

pub record Sent : Type 0 where
  pub sender : Sender
  pub datagrams : List (List ℕ)
  pub error : Option SendError

unfoldable pub count_full : Sender → SendError → Sender
count_full s buffer_full = record s { enobuf_count = (s.enobuf_count + 1) % 2 ^ 64 }
count_full s other_error = s

-- `payload[i:end]`
abbrev chunk_at : List ℕ → ℕ → List ℕ
chunk_at payload i =
    let end =
      (if ltb (length payload) (i + max_datagram) then length payload else i + max_datagram) in
    take (end - i) (drop i payload)

-- The rounds of the loop from offset `i` on, `chunk_idx` chunks being sent. `outcome` is what the
-- write of each chunk returns. A round takes one chunk, so `total_chunks`
-- rounds are enough.
unfoldable pub send_from : ℕ → Sender → (ℕ → Option SendError) → List ℕ → ℕ → ℕ → Sent
unfolding count_full
send_from zero s outcome payload i chunk_idx = record { sender = s; datagrams = []; error = none }
send_from (suc rounds) s outcome payload i chunk_idx =
    let rest = send_from rounds s outcome payload (i + max_datagram) (chunk_idx + 1) in
    if leb (length payload) i
    then record { sender = s; datagrams = []; error = none }
    else (elim (outcome chunk_idx) [
      | some e ↦ record { sender = count_full s e; datagrams = []; error = some e }
      | none ↦ record rest { datagrams = chunk_at payload i ∷ rest.datagrams }
    ])

unfoldable pub total_chunks : ℕ → ℕ
total_chunks n = (n + max_datagram - 1) / max_datagram

unfoldable pub stamp : ℕ → Sent → Sent
stamp now r = elim r.error [
  | none ↦ record r { sender = record r.sender { last_send = now } }
  | some e ↦ r
]

-- `start` and `now` are the times at which the payload is begun and done.
unfoldable pub send_payload : Sender → (ℕ → Option SendError) → ℕ → ℕ → List ℕ → Sent
unfolding send_from total_chunks stamp
send_payload s outcome start now payload =
    let s' = record s { payload_send_start = some start } in
    stamp now (send_from (total_chunks (length payload)) s' outcome payload 0 0)

-- `for n >= 10 { if n%10 != 0 { return false }; n /= 10 }`, in at most `rounds` rounds.
power_loop : ℕ → ℕ → Bool
power_loop zero n = n == 1
power_loop (suc rounds) n =
    let next = power_loop rounds (n / 10) in
    if ltb n 10 then n == 1 else if not (n % 10 == 0) then false else next

unfoldable pub is_power_of_ten : ℕ → Bool
unfolding power_loop
is_power_of_ten n = if n == 0 then false else power_loop n n

-- `now` stands in where no payload was ever sent.
unfoldable pub mark_blit_sent : Sender → ℕ → ℕ → Sender
mark_blit_sent s size now = record s {
  last_blit_size = size;
  last_blit_time = elim s.payload_send_start [ some t ↦ t | none ↦ now ];
}

-- How long WaitForCongestion sleeps when it is called at `now`.
unfoldable pub wait_for_congestion : Sender → ℕ → ℕ
wait_for_congestion s now =
    if leb s.last_blit_size congestion_size
    then 0
    else congestion_wait * 1000000 - (now - s.last_blit_time)

-- Whether a packet was written, and the error of the write. `now` is read twice in the source,
-- before and after the write.
unfoldable pub send_if_idle :
    Sender → Option SendError → ℕ → ℕ → ℕ → Sender × Bool × Option SendError
send_if_idle s outcome idle now done =
    if not (s.last_send == 0) && ltb (now - s.last_send) idle
    then (s, false, none)
    else (elim outcome [
      | some e ↦ (s, false, some e)
      | none ↦ (record s { last_send = done }, true, none)
    ])
