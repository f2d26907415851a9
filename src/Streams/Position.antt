-- ===== src/Streams/Position.antt =====
-- internal/adapters/streams/queue.go: the position of a queue, and the tests for the two buttons.
use native.Mathlib.Nat.{mod-eq_of_lt, add-mul-mod_self_right}
use mi_ster_groovy_relay.Prelude.{
  ℕ, ◌+◌, ◌-◌, ◌*◌, ◌%◌, ◌<◌, ◌≡◌, refl, ap, ◌∙◌, inl, inr, true, List, arith, dec_lt, ltb,
  Bool-cases, length, length-append, take, drop, length-take, length-drop,
}
use mi_ster_groovy_relay.Streams.{
  shuffle_tail, shuffle_items, loop_sequential, reset_for_replay, ActiveQueue, StreamItem,
  advance_next, advance_previous, can_advance_next, can_advance_previous,
}

there_and_back : (i l : ℕ) → i < l → ((i + 1) % l + l - 1) % l ≡ i
there_and_back i l h = elim (dec_lt (i + 1) l) [
  | yes more ↦
      let e : (i + 1) % l + l - 1 ≡ i + 1 * l = omega (arith, mod-eq_of_lt more) in
      ap (λ m. m % l) e ∙ add-mul-mod_self_right i 1 l ∙ mod-eq_of_lt h
  | no end ↦
      let wrapped : (i + 1) % l ≡ 0 =
        (let e : i + 1 ≡ 0 + 1 * l = omega arith in
          ap (λ m. m % l) e ∙ add-mul-mod_self_right 0 1 l ∙ mod-eq_of_lt (omega arith)) in
      let e : (i + 1) % l + l - 1 ≡ i = omega (arith, wrapped) in ap (λ m. m % l) e ∙ mod-eq_of_lt h
]

module _ {S : Type 0} where
  pub record IsValid (q : ActiveQueue S) : Type 0 where
    pub inside : q.index < length q.items
    pub base : length q.base_items ≡ length q.items

  -- `canAdvanceNext` tells whether `advanceNext` would move.
  pub can_advance_next_lem :
      (shuffle : List (StreamItem S) → List (StreamItem S)) (q : ActiveQueue S)
      → can_advance_next q ≡ (advance_next shuffle q).1
  unfolding can_advance_next advance_next
  can_advance_next_lem shuffle q = ground arith

  -- `canAdvancePrevious` tells whether `advancePrevious` would move.
  pub can_advance_previous_lem :
      (q : ActiveQueue S) → can_advance_previous q ≡ (advance_previous q).1
  unfolding can_advance_previous advance_previous
  can_advance_previous_lem q = ground arith

  module _ (shuffle : List (StreamItem S) → List (StreamItem S))
      (shuffled : (xs : List (StreamItem S)) → length (shuffle xs) ≡ length xs) where
    length-shuffle_items :
        (xs : List (StreamItem S)) → length (shuffle_items shuffle xs) ≡ length xs
    unfolding shuffle_items
    length-shuffle_items xs = elim (Bool-cases (ltb (length xs) 2)) [
      | inl few ↦ rw few refl
      | inr more ↦ rw more (shuffled xs)
    ]

    length-shuffle_tail : (xs : List (StreamItem S)) → length (shuffle_tail shuffle xs) ≡ length xs
    unfolding shuffle_tail
    length-shuffle_tail xs = omega (
      arith,
      length-append (take 1 xs) (shuffle_items shuffle (drop 1 xs)),
      length-shuffle_items (drop 1 xs),
      length-take 1 xs,
      length-drop 1 xs,
    )

    -- Where `shuffle` keeps the number of items, moving on in a valid queue keeps the index inside
    -- of the items, and keeps as many items as the channel has.
    pub advance_next-IsValid : (q : ActiveQueue S) → IsValid q → IsValid (advance_next shuffle q).0
    unfolding advance_next
    advance_next-IsValid q v = record {
      inside = ground (
        arith,
        v.inside,
        v.base,
        length-shuffle_items q.base_items,
        length-shuffle_tail q.base_items,
      );
      base = ground (
        arith,
        v.inside,
        v.base,
        length-shuffle_items q.base_items,
        length-shuffle_tail q.base_items,
      );
    }

    pub reset_for_replay-IsValid :
        (q : ActiveQueue S) → IsValid q → IsValid (reset_for_replay shuffle q)
    unfolding reset_for_replay
    reset_for_replay-IsValid q v = record {
      inside = ground (
        arith,
        v.inside,
        v.base,
        length-shuffle_items q.base_items,
        length-shuffle_tail q.base_items,
      );
      base = ground (
        arith,
        v.inside,
        v.base,
        length-shuffle_items q.base_items,
        length-shuffle_tail q.base_items,
      );
    }

  -- Moving back in a valid queue keeps the index inside of the items, and keeps as many items as
  -- the channel has.
  pub advance_previous-IsValid : (q : ActiveQueue S) → IsValid q → IsValid (advance_previous q).0
  unfolding advance_previous
  advance_previous-IsValid q v = record {
    inside = ground (arith, v.inside, v.base);
    base = ground (arith, v.inside, v.base);
  }

  next_eq :
      (shuffle : List (StreamItem S) → List (StreamItem S)) (q : ActiveQueue S)
      → 0 < length q.items
      → q.loop_mode ≡ loop_sequential
      → advance_next shuffle q ≡ (record q { index = (q.index + 1) % length q.items }, true)
  unfolding advance_next
  next_eq shuffle q h m = ground arith

  previous_eq :
      (q : ActiveQueue S)
      → 0 < length q.items
      → q.loop_mode ≡ loop_sequential
      → advance_previous q
        ≡ (record q { index = (q.index + length q.items - 1) % length q.items }, true)
  unfolding advance_previous
  previous_eq q h m = ground arith

  -- In a valid queue that loops in sequence, moving on and then back changes nothing.
  pub advance_previous-advance_next :
      (shuffle : List (StreamItem S) → List (StreamItem S)) (q : ActiveQueue S)
      → IsValid q
      → q.loop_mode ≡ loop_sequential
      → (advance_previous (advance_next shuffle q).0).0 ≡ q
  advance_previous-advance_next shuffle q v m =
      let h : 0 < length q.items = omega (arith, v.inside) in
      ap (λ r. (advance_previous r.0).0) (next_eq shuffle q h m)
      ∙ ap (λ r. r.0) (previous_eq (record q { index = (q.index + 1) % length q.items }) h m)
      ∙ ap (λ i. record q { index = i }) (there_and_back q.index (length q.items) v.inside)
