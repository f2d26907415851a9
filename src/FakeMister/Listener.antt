-- ===== src/FakeMister/Listener.antt =====
-- internal/fakemister/listener.go: the listener's loop as a step on each datagram that arrives.
-- Left out: the socket, logging, and the bare command loop `Run`.
pub mod Transfer
use mi_ster_groovy_relay.Prelude.{
  ℕ, ◌+◌, ◌-◌, ◌*◌, ◌%◌, ◌^◌, Bool, true, false, not, ◌&&◌, Option, none, some, List, [], ◌∷◌, ◌++◌,
  map, ltb, leb, ◌==◌, if◌then◌else◌, length, set, take, replicate,
}
use mi_ster_groovy_relay.Prelude.Result.{Result, ok, err}
use mi_ster_groovy_relay.Groovy.{
  cmd_close, cmd_init, cmd_switchres, cmd_get_status, cmd_get_version, ack_packet_size,
  max_datagram,
}
use mi_ster_groovy_relay.FakeMister.Command.{
  Command, ParseError, BlitHeader, InitPayload, Body, init, audio, blit, switchres, parse_command,
  AudioHeader,
}
use mi_ster_groovy_relay.FakeMister.Reassembler
use mi_ster_groovy_relay.FakeMister.Reassembler.{Reassembler, new_reassembler}

-- Times and durations are nanoseconds; `none` is the zero Time.
pub record Listener : Type 0 where
  pub ack_on_init : Bool
  pub audio_ready_bit : Bool
  pub zero_size_lz4_blits : ℕ
  pub core_version : ℕ
  pub idle_timeout : ℕ
  pub session_open : Bool
  pub last_recv : Option ℕ
  pub reaps : ℕ

unfoldable pub version : Listener → ℕ
version l = if l.core_version == 0 then 1 else l.core_version

-- The gap of `now` to the last datagram is longer than the idle timeout.
idle_gap : Listener → ℕ → Bool
idle_gap l now = elim l.last_recv [ none ↦ false | some t ↦ ltb l.idle_timeout (now - t) ]

unfoldable pub observe_arrival : Listener → ℕ → Listener
unfolding idle_gap
observe_arrival l now =
    let l' =
      (if (ltb 0 l.idle_timeout && l.session_open) && idle_gap l now
        then record l { session_open = false; reaps = l.reaps + 1 }
        else l) in
    record l' { last_recv = some now }

unfoldable pub init_ack : Listener → List ℕ
init_ack l =
    let ack = replicate ack_packet_size 0 in
    if l.audio_ready_bit then set ack 12 (1 * 2 ^ 6) else ack

-- The new state, the datagrams that are sent back, and whether the core accepts the command.
unfoldable pub respond : Listener → Command → Listener × List (List ℕ) × Bool
unfolding version init_ack
respond l cmd =
    let ack : List (List ℕ) = (if l.ack_on_init then init_ack l ∷ [] else []) in
    let opened : Listener = record l { session_open = true } in
    if cmd.type == cmd_get_version
    then (l, (if l.ack_on_init then (version l ∷ []) ∷ [] else []), true)
    else if cmd.type == cmd_get_status
    then (l, ack, true)
    else if cmd.type == cmd_init
    then (if length cmd.raw == 6 && ltb (version l) 2 then (l, [], false) else (opened, ack, true))
    else if cmd.type == cmd_close
    then (record l { session_open = false }, [], true)
    else if ltb 0 l.idle_timeout && not l.session_open
    then (l, [], false)
    else if (cmd.type == cmd_switchres && l.ack_on_init) && leb 2 (version l)
    then (l, init_ack l ∷ [], true)
    else (l, [], true)

-- `payloadMode`, with the local variables `blitHeader` and `reass` that a mode reads.
pub data Mode : Type 0 where
  command_mode : Mode
  blit_mode : BlitHeader → Reassembler → Mode
  audio_mode : Reassembler → Mode
  zero_lz4_mode : Mode

pub record State : Type 0 where
  pub mode : Mode
  pub compression : Bool
  pub listener : Listener

-- What the loop emits: a datagram back to the sender, or a value on one of its three channels.
pub data Event : Type 0 where
  reply : List ℕ → Event
  command : Command → Event
  field_event : BlitHeader → List ℕ → Event
  audio_event : List ℕ → Event

-- A datagram with its time of arrival, and what `fieldSizeFn` answers then.
pub record Arrival : Type 0 where
  pub at : ℕ
  pub datagram : List ℕ
  pub field_size : ℕ

abbrev max_command_len : ℕ
max_command_len = 26

-- `compression` after an accepted command.
next_compression : Bool → Body → Bool
next_compression c (init p) = not (p.lz4_frames % 4 == 0)
next_compression c b = c

-- The mode after a command that went to the channel, for one with a payload to come.
next_mode : ℕ → Body → Mode
next_mode field_size (blit b) =
    let size = (if b.compressed then b.compressed_size else field_size) in
    if b.duplicate
    then command_mode
    else if size == 0
    then command_mode
    else blit_mode b (new_reassembler size)
next_mode field_size (audio a) =
    if a.sound_size == 0 then command_mode else audio_mode (new_reassembler a.sound_size)
next_mode field_size b = command_mode

-- The header is one that the core takes for a compressed blit of size 0.
arms_zero_size : Bool → Body → Bool
arms_zero_size c (blit b) = c && not b.compressed
arms_zero_size c b = false

zero_size : Body → Body
zero_size (blit b) = blit (record b { duplicate = false; compressed = true; compressed_size = 0 })
zero_size b = b

accept : State → ℕ → Command → State × List Event
unfolding next_compression next_mode arms_zero_size zero_size
accept s field_size cmd =
    let (l, replies, accepted) = respond s.listener cmd in
    let sent = map reply replies in
    let c = next_compression s.compression cmd.body in
    if not accepted
    then (record s { mode = command_mode; listener = l }, sent)
    else if arms_zero_size c cmd.body
    then (
      record {
        mode = zero_lz4_mode;
        compression = c;
        listener = record l { zero_size_lz4_blits = l.zero_size_lz4_blits + 1 };
      },
      sent ++ (command (record cmd { body = zero_size cmd.body }) ∷ []),
    )
    else (
      record { mode = next_mode field_size cmd.body; compression = c; listener = l },
      sent ++ (command cmd ∷ []),
    )

-- A datagram in command mode.
on_command : State → ℕ → List ℕ → State × List Event
unfolding accept
on_command s field_size pkt =
    if ltb max_command_len (length pkt)
    then (record s { mode = command_mode }, [])
    else (elim (parse_command pkt) [
      | ok cmd ↦ accept s field_size cmd
      | err e ↦ (record s { mode = command_mode }, [])
    ])

on_datagram : Mode → State → ℕ → List ℕ → State × List Event
unfolding on_command
on_datagram command_mode s field_size pkt = on_command s field_size pkt
on_datagram zero_lz4_mode s field_size pkt =
    if ltb max_command_len (length pkt)
    then (record s { mode = command_mode }, [])
    else on_command s field_size pkt
on_datagram (blit_mode b r) s field_size pkt =
    let (r', done) = Reassembler.write r pkt in
    if done
    then (record s { mode = command_mode }, field_event b r'.buf ∷ [])
    else (record s { mode = blit_mode b r' }, [])
on_datagram (audio_mode r) s field_size pkt =
    let (r', done) = Reassembler.write r pkt in
    if done
    then (record s { mode = command_mode }, audio_event r'.buf ∷ [])
    else (record s { mode = audio_mode r' }, [])

-- One turn of `RunWithFields`. The read buffer cuts a datagram off at twice `max_datagram`.
unfoldable pub step : State → Arrival → State × List Event
unfolding on_datagram
step s a =
    let s' = record s { listener = observe_arrival s.listener a.at } in
    on_datagram s.mode s' a.field_size (take (max_datagram * 2) a.datagram)

unfoldable pub run : State → List Arrival → State × List Event
run s [] = (s, [])
run s (a ∷ as_list) =
    let (s', events) = step s a in let (s'', later) = run s' as_list in (s'', events ++ later)
