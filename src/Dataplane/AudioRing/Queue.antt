-- ===== src/Dataplane/AudioRing/Queue.antt =====
-- internal/dataplane/audioring.go: the ring as the queue of its chunks, oldest first.
use native.Mathlib.Nat.{mod-lt, mod-eq_of_lt}
use mi_ster_groovy_relay.Dataplane.AudioRing.Window.{
  get_or-set_self, slot, window, window-snoc, window-set, window-next,
}
use mi_ster_groovy_relay.Prelude.{
  ℕ, suc, ◌+◌, ◌-◌, ◌%◌, ◌≤◌, ◌<◌, ◌≡◌, refl, sym, ap, ap₂, ◌∙◌, ◌⊎◌, inl, inr, true, false, Option,
  none, some, List, [], ◌∷◌, ◌++◌, arith, dec_lt, ℕ_discrete, ltb, leb, ◌==◌, if◌then◌else◌, lt→ltb,
  ==_iff, Bool-cases, length, set, length-set, get_or, drop, length-replicate, le→ltb-false, le→leb,
  lt→leb-false,
}
use mi_ster_groovy_relay.Dataplane.AudioRing.{
  new_audio_delay_ring, shed, pop_if_beyond, push, store_tail, AudioDelayRing,
}

module _ {A : Type 0} where
  -- The chunks that the ring holds, oldest first.
  abbrev pub contents : AudioDelayRing A → List (Option A)
  contents r = window r.buf r.head 0 r.n

  pub record IsValid (r : AudioDelayRing A) : Type 0 where
    pub inside : r.head < length r.buf
    pub bounded : r.n ≤ length r.buf

  module _ (r : AudioDelayRing A) (v : IsValid r) where
    store_tail-IsValid : (p : A) → r.n < length r.buf → IsValid (store_tail r p)
    unfolding store_tail
    store_tail-IsValid p h =
        let size = length-set r.buf (slot r.buf r.head r.n) (some p) in
        record { inside = omega (arith, size, v.inside); bounded = omega (arith, size) }

    contents-store_tail :
        (p : A) → r.n < length r.buf → contents (store_tail r p) ≡ contents r ++ (some p ∷ [])
    unfolding store_tail
    contents-store_tail p h =
        let size = length-set r.buf (slot r.buf r.head r.n) (some p) in
        let room : slot r.buf r.head r.n < length r.buf =
          mod-lt (r.head + r.n) (omega (arith, h)) in
        let same =
          window-set r.buf r.head r.n 0 r.n (some p) v.inside h (inr (omega arith)) (omega arith) in
        let last : get_or (store_tail r p).buf (slot (store_tail r p).buf r.head r.n) none
            ≡ some p =
          ap (λ m. get_or (store_tail r p).buf ((r.head + r.n) % m) none) size
          ∙ get_or-set_self r.buf (slot r.buf r.head r.n) (some p) room in
        let e : 0 + r.n ≡ r.n = omega arith in
        let f : r.n + 1 ≡ suc r.n = omega arith in
        ap (window (store_tail r p).buf r.head 0) f
        ∙ window-snoc (store_tail r p).buf r.head 0 r.n
        ∙ ap₂ (λ t c. t ++ (c ∷ [])) same
            (ap (λ m. get_or (store_tail r p).buf (slot (store_tail r p).buf r.head m) none) e
              ∙ last)

    -- Without the oldest chunk, whose slot is cleared.
    contents-rest :
        (n : ℕ)
        → r.n ≡ suc n
        → window (set r.buf r.head none) ((r.head + 1) % length r.buf) 0 n ≡ drop 1 (contents r)
    contents-rest n h =
        let head_slot : r.head ≡ slot r.buf r.head 0 =
          (let e : r.head ≡ r.head + 0 = omega arith in
            e ∙ sym (mod-eq_of_lt (omega (arith, v.inside)))) in
        let size = length-set r.buf r.head none in
        ap (λ m. window (set r.buf r.head none) ((r.head + 1) % m) 0 n) (sym size)
        ∙ window-next (set r.buf r.head none) r.head 0 n (omega (arith, size, v.inside))
            (omega (arith, size, v.bounded))
        ∙ ap (λ m. window (set r.buf m none) r.head 1 n) head_slot
        ∙ window-set r.buf r.head 0 1 n none v.inside (omega (arith, v.inside)) (inl (omega arith))
            (omega (arith, v.bounded))
        ∙ ap (λ m. drop 1 (window r.buf r.head 0 m)) (sym h)

    shed-IsValid : r.n ≡ length r.buf → IsValid (shed r)
    unfolding shed
    shed-IsValid h =
        let size = length-set r.buf r.head none in
        record {
          inside = omega (
            arith,
            size,
            mod-lt (r.head + 1) (let q : 0 < length r.buf = omega (arith, v.inside) in q),
          );
          bounded = omega (arith, size);
        }

    contents-shed : r.n ≡ length r.buf → contents (shed r) ≡ drop 1 (contents r)
    unfolding shed
    contents-shed h = contents-rest (r.n - 1) (omega (arith, h, v.inside))

  -- `==` decides: the ring is full, or has room.
  fullness :
      (r : AudioDelayRing A)
      → IsValid r
      → (((r.n == length r.buf) ≡ true) × (r.n ≡ length r.buf))
        ⊎ (((r.n == length r.buf) ≡ false) × (r.n < length r.buf))
  fullness r v = elim (ℕ_discrete r.n (length r.buf)) [
    | yes full ↦ inl ((==_iff _ _).1 full, full)
    | no room ↦ inr (ground arith, omega (arith, v.bounded, room))
  ]

  shed_room :
      (r : AudioDelayRing A) → r.n ≡ length r.buf → IsValid r → (shed r).n < length (shed r).buf
  unfolding shed
  shed_room r full v = omega (arith, full, v.inside, length-set r.buf r.head none)

  pub push-IsValid : (r : AudioDelayRing A) (p : A) → IsValid r → IsValid (push r p).0
  unfolding push
  push-IsValid r p v = elim (fullness r v) [
    | inl (e, full) ↦
        rw e (store_tail-IsValid (shed r) (shed-IsValid r v full) p (shed_room r full v))
    | inr (e, room) ↦ rw e (store_tail-IsValid r v p room)
  ]

  -- A push appends its chunk to what a valid ring holds; a full ring first drops its oldest chunk,
  -- and reports it.
  pub contents-push :
      (r : AudioDelayRing A) (p : A)
      → IsValid r
      → (contents (push r p).0
          ≡ (if r.n == length r.buf then drop 1 (contents r) else contents r) ++ (some p ∷ []))
        × ((push r p).1 ≡ (r.n == length r.buf))
  unfolding push
  contents-push r p v = elim (fullness r v) [
    | inl (e, full) ↦ rw e (
      contents-store_tail (shed r) (shed-IsValid r v full) p (shed_room r full v)
          ∙ ap (λ t. t ++ (some p ∷ [])) (contents-shed r v full),
      refl,
    )
    | inr (e, room) ↦ rw e (contents-store_tail r v p room, refl)
  ]

  pub pop_if_beyond-IsValid :
      (r : AudioDelayRing A) (d : ℕ) → IsValid r → IsValid (pop_if_beyond r d).0
  unfolding pop_if_beyond
  pop_if_beyond-IsValid r d v = elim (Bool-cases (leb r.n d)) [
    | inl few ↦ rw few v
    | inr more ↦
        let size = length-set r.buf r.head none in
        let q : 0 < length r.buf = omega (arith, v.inside) in
        rw more (record {
          inside = omega (arith, size, mod-lt (r.head + 1) q);
          bounded = omega (arith, size, v.bounded);
        })
  ]

  oldest :
      (r : AudioDelayRing A)
      → IsValid r
      → 0 < r.n
      → get_or r.buf r.head none ≡ get_or (contents r) 0 none
  oldest r v h =
      let e : r.n ≡ suc (r.n - 1) = omega arith in
      let f : r.head ≡ r.head + 0 = omega arith in
      ap (λ m. get_or r.buf m none) (f ∙ sym (mod-eq_of_lt (omega (arith, v.inside))))
      ∙ ap (λ m. get_or (window r.buf r.head 0 m) 0 none) (sym e)

  -- A pop of a valid ring returns the oldest chunk and keeps the others, where more than `d` are
  -- held; else it returns none and keeps all.
  pub contents-pop_if_beyond :
      (r : AudioDelayRing A) (d : ℕ)
      → IsValid r
      → (contents (pop_if_beyond r d).0 ≡ (if ltb d r.n then drop 1 (contents r) else contents r))
        × ((pop_if_beyond r d).1 ≡ (if ltb d r.n then get_or (contents r) 0 none else none))
  unfolding pop_if_beyond
  contents-pop_if_beyond r d v = elim (dec_lt d r.n) [
    | yes more ↦
        rw (lt→leb-false _ _ more, lt→ltb _ _ more)
          (contents-rest r v (r.n - 1) (omega arith), oldest r v (omega arith))
    | no few ↦ let q : r.n ≤ d = omega arith in rw (le→leb _ _ q, le→ltb-false _ _ q) (refl, refl)
  ]

  pub new_audio_delay_ring-IsValid : (d : ℕ) → IsValid (new_audio_delay_ring {A = A} d)
  unfolding new_audio_delay_ring
  new_audio_delay_ring-IsValid d = record {
    inside = omega (arith, length-replicate {A = Option A} (d + 1) none);
    bounded = omega arith;
  }
