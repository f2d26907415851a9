-- ===== src/FakeMister/Listener/Transfer.antt =====
-- internal/groovynet/sender.go against internal/fakemister/listener.go: a field on the wire.
use mi_ster_groovy_relay.Prelude.{
  ℕ, ◌+◌, ◌-◌, ◌*◌, ◌^◌, ◌≤◌, ◌<◌, ◌≡◌, refl, ap, ◌∙◌, ◌⊎◌, inl, inr, Bool, true, false, none, List,
  [], ◌∷◌, ◌++◌, append_assoc, append-nil, arith, length, length-append, take, le→ltb-false, le→leb,
  lt→leb-false, take_all, concat,
}
use mi_ster_groovy_relay.Groovy.{cmd_blit_field_vsync, max_datagram}
use mi_ster_groovy_relay.Groovy.Builder.Laws.{blit_layout, build_blit_header-blit_layout}
use mi_ster_groovy_relay.Groovy.Builder.{BlitOpts, build_blit_header}
use mi_ster_groovy_relay.Net.Sender.{Sender, send_payload}
use mi_ster_groovy_relay.Net.Sender.Chunks.{AllSized, send_payload_lem}
use mi_ster_groovy_relay.FakeMister.Command.{BlitHeader, Command, blit}
use mi_ster_groovy_relay.FakeMister.Command.RoundTrip.{received, parse_command-build_blit_header}
use mi_ster_groovy_relay.FakeMister.Reassembler
use mi_ster_groovy_relay.FakeMister.Reassembler.{Reassembler, new_reassembler}
use mi_ster_groovy_relay.FakeMister.Reassembler.Laws.{IsValid, write_lem, new_reassembler-IsValid}
use mi_ster_groovy_relay.FakeMister.Listener.{
  respond, accept, Listener, Mode, command_mode, blit_mode, State, Event, field_event, command,
  Arrival, observe_arrival, step, run,
}

abbrev pub datagrams : List Arrival → List (List ℕ)
datagrams [] = []
datagrams (a ∷ as_list) = a.datagram ∷ datagrams as_list

-- The loop is done with the field: it is emitted, and commands are read again.
abbrev Collected : BlitHeader → List ℕ → Bool → State × List Event → Type 0
Collected b bytes c (s, events) =
    (events ≡ field_event b bytes ∷ []) × (s.mode ≡ command_mode) × (s.compression ≡ c)

abbrev collecting : BlitHeader → Reassembler → Bool → Listener → State
collecting b r c l = record { mode = blit_mode b r; compression = c; listener = l }

module _ (b : BlitHeader) (r : Reassembler) (c : Bool) (l : Listener) (a : Arrival) where
  abbrev after : State
  after = record { mode = command_mode; compression = c; listener = observe_arrival l a.at }

  step_last :
      length a.datagram ≤ 2 * max_datagram
      → (Reassembler.write r a.datagram).1 ≡ true
      → step (collecting b r c l) a
        ≡ (after, field_event b (Reassembler.write r a.datagram).0.buf ∷ [])
  unfolding step
  step_last h done = rw (take_all 2944 a.datagram h, done)

  step_more :
      length a.datagram ≤ 2 * max_datagram
      → (Reassembler.write r a.datagram).1 ≡ false
      → step (collecting b r c l) a
        ≡ (collecting b (Reassembler.write r a.datagram).0 c (observe_arrival l a.at), [])
  unfolding step
  step_more h done = rw (take_all 2944 a.datagram h, done)

-- From any point of a field on: the rest of its bytes, in datagrams of any sizes, complete it.
collect :
    (arrivals : List Arrival) (b : BlitHeader) (r : Reassembler) (c : Bool) (l : Listener)
    → IsValid r
    → AllSized (datagrams arrivals)
    → length (concat (datagrams arrivals)) ≡ r.expected - r.got
    → 0 < r.expected - r.got
    → Collected b (r.buf ++ concat (datagrams arrivals)) c (run (collecting b r c l) arrivals)
unfolding run
collect [] b r c l v z h p = absurd (omega arith)
collect (a ∷ []) b r c l v (z, zs) h p =
    let d : List ℕ = a.datagram in
    let (v', same, held, done) = write_lem r d v (omega arith) in
    let all : length d ≡ r.expected - r.got = omega (arith, length-append d []) in
    let last : (Reassembler.write r d).1 ≡ true =
      done ∙ le→leb (r.expected - r.got) (length d) (omega arith) in
    let e : take (r.expected - r.got) d ≡ d = take_all (r.expected - r.got) d (omega arith) in
    rw (step_last b r c l a (omega arith) last, held, e, append-nil d) (refl, refl, refl)
collect (a ∷ a' ∷ rest) b r c l v (z, (z', zs)) h p =
    let d : List ℕ = a.datagram in
    let (v', same, held, done) = write_lem r d v (omega arith) in
    let later : List ℕ = concat (datagrams (a' ∷ rest)) in
    let sum : length d + length later ≡ r.expected - r.got =
      omega (arith, h, length-append d later) in
    let pos : 0 < length later =
      omega (arith, length-append a'.datagram (concat (datagrams rest))) in
    let more : (Reassembler.write r d).1 ≡ false =
      done ∙ lt→leb-false (length d) (r.expected - r.got) (omega arith) in
    let e : take (r.expected - r.got) d ≡ d = take_all (r.expected - r.got) d (omega arith) in
    let held' : (Reassembler.write r d).0.buf ≡ r.buf ++ d = rw e at held in
    let size : length (Reassembler.write r d).0.buf ≡ r.got + length d =
      ap length held' ∙ omega (arith, length-append r.buf d, v.counted) in
    let got : (Reassembler.write r d).0.got ≡ r.got + length d = v'.counted ∙ size in
    let ih =
      collect (a' ∷ rest) b (Reassembler.write r d).0 c (observe_arrival l a.at) v' (z', zs)
        (omega (arith, same, got, sum)) (omega (arith, same, got, sum)) in
    rw (step_more b r c l a (omega arith) more) (rw (held', append_assoc r.buf d later) at ih)

-- The session is open, or the receiver does not reap idle sessions.
abbrev pub Accepts : Listener → Type 0
Accepts l = (l.session_open ≡ true) ⊎ (l.idle_timeout ≡ 0)

-- The command that a header is read as.
abbrev pub header_command : BlitOpts → Command
header_command o = record {
  type = cmd_blit_field_vsync;
  body = blit (received o);
  raw = build_blit_header o;
}

-- The payload of `n` bytes that a header announces: by its own size field, or by the session's.
abbrev pub Announces : Bool → ℕ → BlitOpts → ℕ → Type 0
Announces compression field_size o n =
    (o.duplicate ≡ false)
    × (((o.compressed ≡ true) × (o.compressed_size ≡ n))
        ⊎ ((o.compressed ≡ false) × (compression ≡ false) × (field_size ≡ n)))

respond_blit :
    (l : Listener) (o : BlitOpts) → Accepts l → respond l (header_command o) ≡ (l, [], true)
unfolding respond
respond_blit l o h = ground arith

accept_blit :
    (m : Mode) (c : Bool) (l : Listener) (fs : ℕ) (o : BlitOpts) (n : ℕ)
    → Accepts l
    → Announces c fs o n
    → 0 < n
    → accept (record { mode = m; compression = c; listener = l }) fs (header_command o)
      ≡ (collecting (received o) (new_reassembler n) c l, command (header_command o) ∷ [])
unfolding accept
accept_blit m c l fs o n acc size pos = rw (respond_blit l o acc) (ground arith)

length-build_blit_header :
    (o : BlitOpts) → (8 ≤ length (build_blit_header o)) × (length (build_blit_header o) ≤ 13)
unfolding blit_layout
length-build_blit_header o = rw (build_blit_header-blit_layout o) (ground arith)

-- A header whose payload is to come puts the loop into blit mode.
step_header :
    (c : Bool) (l : Listener) (a : Arrival) (o : BlitOpts) (n : ℕ)
    → o.frame < 2 ^ 32
    → o.vsync < 2 ^ 16
    → o.compressed_size < 2 ^ 32
    → Accepts (observe_arrival l a.at)
    → Announces c a.field_size o n
    → 0 < n
    → a.datagram ≡ build_blit_header o
    → step (record { mode = command_mode; compression = c; listener = l }) a ≡ (
      collecting (received o) (new_reassembler n) c (observe_arrival l a.at),
      command (header_command o) ∷ [],
    )
unfolding step
step_header c l a o n hf hv hs acc size pos e =
    let short = length-build_blit_header o in
    rw
      (
        e,
        take_all 2944 (build_blit_header o) (omega (arith, short)),
        le→ltb-false 26 (length (build_blit_header o)) (omega (arith, short)),
        parse_command-build_blit_header o hf hv hs,
      )
      (accept_blit command_mode c (observe_arrival l a.at) a.field_size o n acc size pos)

-- A BLIT header and the payload that it announces, sent by SendPayload with no write error, reach
-- the receiver's loop in command mode as two events, the header as it was built and the field with
-- exactly the payload's bytes; afterwards the loop reads commands again. The times and the other
-- sizes are any, the payload is not empty and shorter than 2 ^ 32 bytes, and the header's numbers
-- fit their fields. The session has to be open (or never reaped), and an uncompressed header needs
-- a session whose INIT had compression off.
pub transfer_field :
    (c : Bool) (l : Listener) (header : Arrival) (o : BlitOpts) (payload : List ℕ)
    → (s : Sender) (start now : ℕ) (arrivals : List Arrival) → o.frame < 2 ^ 32
    → o.vsync < 2 ^ 16
    → o.compressed_size < 2 ^ 32
    → Accepts (observe_arrival l header.at)
    → Announces c header.field_size o (length payload)
    → 0 < length payload
    → length payload < 2 ^ 32
    → header.datagram ≡ build_blit_header o
    → datagrams arrivals ≡ (send_payload s (λ k. none) start now payload).datagrams
    → let r =
        run (record { mode = command_mode; compression = c; listener = l }) (header ∷ arrivals) in
      (r.1 ≡ command (header_command o) ∷ field_event (received o) payload ∷ [])
      × (r.0.mode ≡ command_mode)
      × (r.0.compression ≡ c)
unfolding run new_reassembler
transfer_field c l header o payload s start now arrivals hf hv hs acc size pos small eh ea =
    let (taken, sized, before, ending) = send_payload_lem s (λ k. none) start now payload in
    let whole : concat (datagrams arrivals) ≡ payload =
      rw ea (elim ending [ inl (ok', all, t) ↦ all | inr (x, bad, none_some, y) ↦ absurd (cc) ]) in
    let done =
      collect arrivals (received o) (new_reassembler (length payload)) c
        (observe_arrival l header.at) (new_reassembler-IsValid (length payload) small) (rw ea sized)
        (ap length whole ∙ omega arith) (omega arith) in
    rw (step_header c l header o (length payload) hf hv hs acc size pos eh) (
      let (ev, m, k) = done in
      (
        ap (λ t. command (header_command o) ∷ t)
            (ev ∙ ap (λ t. field_event (received o) t ∷ []) whole),
        m,
        k,
      ))
