-- ===== src/Nlc/Frame/Reuse.antt =====
-- internal/groovy/nlc/encode.go: one encoder for many frames.
use mi_ster_groovy_relay.Prelude.{
  ℕ, ◌≤◌, ◌≡◌, refl, sym, ap, ◌∙◌, inl, inr, List, [], ◌∷◌, arith, ltb, ◌==◌, Bool-cases, length,
}
use mi_ster_groovy_relay.Prelude.Result.{ok}
use mi_ster_groovy_relay.Nlc.BitIo.View.{AllBytes}
use mi_ster_groovy_relay.Nlc.Frame.{Encoder, frame_bytes, encode_into}
use mi_ster_groovy_relay.Nlc.Frame.Encode.{IsEncoder}
use mi_ster_groovy_relay.Nlc.Frame.RoundTrip.{
  relay, reconstruct_frame, relay_reconstruct, encode_into-IsEncoder,
}

-- What calls of EncodeInto, each with its destination and its source, leave of an encoder, whatever
-- they return.
abbrev pub after : Encoder → List (List ℕ × List ℕ) → Encoder
after e [] = e
after e ((dst, src) ∷ calls) = after (encode_into e dst src).0 calls

abbrev pub AllSources : List (List ℕ × List ℕ) → Type 0
AllSources [] = Unit
AllSources ((dst, src) ∷ calls) = AllBytes src × AllSources calls

-- The same encoder but for its scratch.
record IsSame (e e' : Encoder) : Type 0 where
  params : e'.params ≡ e.params
  max_size : e'.max_size ≡ e.max_size

encode_into-IsSame : (e : Encoder) (dst src : List ℕ) → IsSame e (encode_into e dst src).0
unfolding encode_into
encode_into-IsSame e dst src = elim (Bool-cases (length src == frame_bytes e.params)) [
  | inr wrong ↦ rw wrong (record { params = refl; max_size = refl })
  | inl right ↦ elim (Bool-cases (ltb (length dst) e.max_size)) [
    | inl small ↦ rw (right, small) (record { params = refl; max_size = refl })
    | inr large ↦ rw (right, large) (record { params = refl; max_size = refl })
  ]
]

after-IsSame : (e : Encoder) (calls : List (List ℕ × List ℕ)) → IsSame e (after e calls)
after-IsSame e [] = record { params = refl; max_size = refl }
after-IsSame e ((dst, src) ∷ calls) =
    let one = encode_into-IsSame e dst src in
    let rest = after-IsSame (encode_into e dst src).0 calls in
    record { params = rest.params ∙ one.params; max_size = rest.max_size ∙ one.max_size }

after-IsEncoder :
    (e : Encoder) (calls : List (List ℕ × List ℕ))
    → IsEncoder e
    → AllSources calls
    → IsEncoder (after e calls)
after-IsEncoder e [] i h = i
after-IsEncoder e ((dst, src) ∷ calls) i (b, h) =
    after-IsEncoder (encode_into e dst src).0 calls (encode_into-IsEncoder e dst src i b) h

-- Whatever calls an encoder between frames has had, with sources of bytes of any size and
-- destinations of any size, and whether or not they gave errors: a source of bytes that fills the
-- frame, with a destination of at least `max_size`, is encoded and decoded to exactly what the
-- closed loop makes of it, which depends on no earlier frame.
pub relay_reconstruct_again :
    (e : Encoder) (calls : List (List ℕ × List ℕ)) (dst src : List ℕ)
    → IsEncoder e
    → AllSources calls
    → length src ≡ frame_bytes e.params
    → AllBytes src
    → e.max_size ≤ length dst
    → relay (after e calls) dst src ≡ ok (reconstruct_frame e.params src)
relay_reconstruct_again e calls dst src i all n b room =
    let same = after-IsSame e calls in
    let fits : (after e calls).max_size ≤ length dst = omega (arith, same.max_size, room) in
    relay_reconstruct (after e calls) dst src (after-IsEncoder e calls i all)
      (n ∙ ap frame_bytes (sym same.params)) b fits
    ∙ ap (λ q. ok (reconstruct_frame q src)) same.params
