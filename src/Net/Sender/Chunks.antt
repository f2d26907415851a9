-- ===== src/Net/Sender/Chunks.antt =====
-- internal/groovynet/sender.go: the datagrams of SendPayload, their bytes and their sizes.
use mi_ster_groovy_relay.Prelude.{
  ℕ, zero, suc, ◌+◌, ◌-◌, ◌*◌, ◌≤◌, ◌<◌, ◌≡◌, refl, ◌∙◌, ◌⊎◌, inl, inr, Option, none, some, List,
  [], ◌∷◌, arith, ltb, leb, ltb→lt, leb→le, Bool-cases, Option-cases, length, take, drop,
  length-take, length-drop, leb-false→lt, take_all, concat, take_add, drop_add,
}
use mi_ster_groovy_relay.Groovy.{max_datagram}
use mi_ster_groovy_relay.Net.Sender.{
  count_full, Sender, SendError, Sent, chunk_at, send_from, total_chunks, send_payload, stamp,
}

-- Every datagram holds a byte and none more than `max_datagram`.
abbrev pub AllSized : List (List ℕ) → Type 0
AllSized [] = Unit
AllSized (d ∷ ds) = ((0 < length d) × (length d ≤ max_datagram)) × AllSized ds

-- The chunk at `i` is what is left from there on, cut off at `max_datagram`.
chunk_at_lem : (payload : List ℕ) (i : ℕ) → chunk_at payload i ≡ take max_datagram (drop i payload)
chunk_at_lem payload i = elim (Bool-cases (ltb (length payload) (i + max_datagram))) [
  | inl last ↦
      let h : length (drop i payload) ≤ length payload - i = omega (arith, length-drop i payload) in
      let h' : length (drop i payload) ≤ max_datagram =
        omega (arith, length-drop i payload, ltb→lt _ _ last) in
      rw (
        last,
        take_all (length payload - i) (drop i payload) h,
        take_all max_datagram (drop i payload) h',
      )
  | inr more ↦ let e : i + max_datagram - i ≡ max_datagram = omega arith in rw (more, e)
]

-- What the loop has done from offset `i` and chunk `k` on.
record Sends (outcome : ℕ → Option SendError) (payload : List ℕ) (i k : ℕ) (s : Sender) (r : Sent)
    : Type 0 where
  bytes : concat r.datagrams ≡ take (length r.datagrams * max_datagram) (drop i payload)
  sized : AllSized r.datagrams
  before : (j : ℕ) → j < length r.datagrams → outcome (k + j) ≡ none
  ending :
      ((r.error ≡ none) × (r.sender ≡ s) × (length payload - i ≤ length r.datagrams * max_datagram))
      ⊎ ((e : SendError) × (r.error ≡ some e)
          × (r.sender ≡ count_full s e)
          × (outcome (k + length r.datagrams) ≡ some e))

module _ (outcome : ℕ → Option SendError) (payload : List ℕ) where
  nothing_left :
      (s : Sender) (i k : ℕ)
      → length payload ≤ i
      → Sends outcome payload i k s (record { sender = s; datagrams = []; error = none })
  nothing_left s i k h = record {
    bytes = refl;
    sized = tt;
    before = λ j p. absurd (omega arith);
    ending = inl (refl, refl, omega arith);
  }

  refused :
      (s : Sender) (i k : ℕ) (e : SendError)
      → outcome k ≡ some e
      → Sends outcome payload i k s
          (record { sender = count_full s e; datagrams = []; error = some e })
  refused s i k e h = record {
    bytes = refl;
    sized = tt;
    before = λ j p. absurd (omega arith);
    ending = inr (e, refl, refl, (let z : k + 0 ≡ k = omega arith in rw z h));
  }

  written :
      (s : Sender) (i k : ℕ) (r : Sent)
      → i < length payload
      → outcome k ≡ none
      → Sends outcome payload (i + max_datagram) (k + 1) s r
      → Sends outcome payload i k s (record r { datagrams = chunk_at payload i ∷ r.datagrams })
  written s i k r more fine rest = record {
    bytes =
        let n : ℕ = length r.datagrams in
        let e : suc n * max_datagram ≡ max_datagram + n * max_datagram = omega arith in
        rw (
          chunk_at_lem payload i,
          e,
          rest.bytes,
          take_add max_datagram (n * max_datagram) (drop i payload),
          drop_add max_datagram i payload,
        );
    sized = (
      rw (chunk_at_lem payload i)
          (omega (arith, length-take max_datagram (drop i payload), length-drop i payload)),
      rest.sized,
    );
    before = earlier;
    ending = elim rest.ending [
      | inl (done, same, h) ↦ inl (done, same, omega arith)
      | inr (e, failed, counted, h) ↦
          let z : k + suc (length r.datagrams) ≡ k + 1 + length r.datagrams = omega arith in
          inr (e, failed, counted, rw z h)
    ];
  }
    where
      earlier : (j : ℕ) → j < suc (length r.datagrams) → outcome (k + j) ≡ none
      earlier zero p = let z : k + 0 ≡ k = omega arith in rw z fine
      earlier (suc j) p =
          let z : k + suc j ≡ k + 1 + j = omega arith in rw z (rest.before j (omega arith))

  send_from-Sends :
      (rounds : ℕ) (s : Sender) (i k : ℕ)
      → length payload - i ≤ rounds * max_datagram
      → Sends outcome payload i k s (send_from rounds s outcome payload i k)
  unfolding send_from
  send_from-Sends zero s i k h = nothing_left s i k (omega arith)
  send_from-Sends (suc rounds) s i k h =
      let rest = send_from-Sends rounds s (i + max_datagram) (k + 1) (omega arith) in
      elim (Bool-cases (leb (length payload) i)) [
        | inl done ↦ rw done (nothing_left s i k (leb→le _ _ done))
        | inr more ↦ elim (Option-cases (outcome k)) [
          | inl fine ↦ rw (more, fine) (written s i k _ (leb-false→lt _ _ more) fine rest)
          | inr (e, bad) ↦ rw (more, bad) (refused s i k e bad)
        ]
      ]

stamp-none :
    (now : ℕ) (r : Sent)
    → r.error ≡ none
    → stamp now r ≡ record r { sender = record r.sender { last_send = now } }
unfolding stamp
stamp-none now r h = ground arith

stamp-some : (now : ℕ) (r : Sent) (e : SendError) → r.error ≡ some e → stamp now r ≡ r
unfolding stamp
stamp-some now r e h = ground arith

-- The conclusion of `send_payload_lem`, for the loop's result `r` from the state `s`.
abbrev Delivers : (ℕ → Option SendError) → List ℕ → ℕ → Sender → Sent → Type 0
Delivers outcome payload now s r =
    (concat r.datagrams ≡ take (length r.datagrams * max_datagram) payload)
    × AllSized r.datagrams
    × ((j : ℕ) → j < length r.datagrams → outcome j ≡ none)
    × (((r.error ≡ none) × (concat r.datagrams ≡ payload) × (r.sender.last_send ≡ now))
        ⊎ ((e : SendError) × (r.error ≡ some e)
            × (outcome (length r.datagrams) ≡ some e)
            × (r.sender ≡ count_full s e)))

zero_add : (j : ℕ) → 0 + j ≡ j
zero_add j = omega arith

stamp-Delivers :
    (outcome : ℕ → Option SendError) (payload : List ℕ) (now : ℕ) (s : Sender) (r : Sent)
    → Sends outcome payload 0 0 s r
    → Delivers outcome payload now s (stamp now r)
stamp-Delivers outcome payload now s r w = elim w.ending [
  | inl (done, same, h) ↦ rw (stamp-none now r done) (
    w.bytes,
    w.sized,
    λ j p. rw zero_add at (w.before j p),
    inl (done, w.bytes ∙ take_all (length r.datagrams * max_datagram) payload (omega arith), refl),
  )
  | inr (e, failed, counted, h) ↦ rw (stamp-some now r e failed) (
    w.bytes,
    w.sized,
    λ j p. rw zero_add at (w.before j p),
    inr (e, failed, rw zero_add at h, counted),
  )
]

-- SendPayload writes the payload in order, in datagrams of 1 to 1472 bytes. With no write error it
-- writes all of it and stamps the time; at the first write error it stops with exactly the chunks
-- before that one written, reports that error, counts it if the send queue was full, and leaves the
-- time of the last send as it was.
pub send_payload_lem :
    (s : Sender) (outcome : ℕ → Option SendError) (start now : ℕ) (payload : List ℕ)
    → let r = send_payload s outcome start now payload in
      (concat r.datagrams ≡ take (length r.datagrams * max_datagram) payload)
      × AllSized r.datagrams
      × ((j : ℕ) → j < length r.datagrams → outcome j ≡ none)
      × (((r.error ≡ none) × (concat r.datagrams ≡ payload) × (r.sender.last_send ≡ now))
          ⊎ ((e : SendError) × (r.error ≡ some e)
              × (outcome (length r.datagrams) ≡ some e)
              × (r.sender ≡ count_full (record s { payload_send_start = some start }) e)))
unfolding send_payload total_chunks
send_payload_lem s outcome start now payload =
    stamp-Delivers outcome payload now (record s { payload_send_start = some start }) _
      (send_from-Sends outcome payload (total_chunks (length payload))
        (record s { payload_send_start = some start }) 0 0 (omega arith))
