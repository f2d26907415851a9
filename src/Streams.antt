-- ===== src/Streams.antt =====
-- internal/adapters/streams/queue.go: the queue of a stream channel. What the model leaves out of
-- `ActiveQueue` are the names and times that its own operations do not read. `rng.Shuffle` of the
-- standard library is the argument `shuffle`, and strings are the argument type `S`, with `empty`
-- for the empty one. An index is never negative: only these operations move it.
pub mod Tests
pub mod Position
use mi_ster_groovy_relay.Prelude.{
  ℕ, zero, suc, ◌+◌, ◌-◌, ◌%◌, Bool, true, false, not, ◌&&◌, ◌||◌, Option, none, some, List, [],
  ◌∷◌, ◌++◌, ltb, leb, ◌==◌, if◌then◌else◌, length, get_elem?, take, drop,
}

pub data LoopMode : Type 0 where
  loop_none : LoopMode
  loop_sequential : LoopMode
  loop_shuffle : LoopMode
  loop_first_then_shuffle : LoopMode

pub data PlayMode : Type 0 where
  unset : PlayMode
  play_sequential : PlayMode
  play_shuffle : PlayMode
  play_first_then_shuffle : PlayMode
  other_mode : PlayMode

pub record StreamItem (S : Type 0) : Type 0 where
  pub id : S
  pub source_id : S
  pub url : S
  pub direct : Bool

pub record ActiveQueue (S : Type 0) : Type 0 where
  pub items : List (StreamItem S)
  pub index : ℕ
  pub loop_mode : LoopMode
  pub base_items : List (StreamItem S)

module _ {S : Type 0} (shuffle : List (StreamItem S) → List (StreamItem S)) where
  -- The slices' elements in place.
  unfoldable pub shuffle_items : List (StreamItem S) → List (StreamItem S)
  shuffle_items items = if ltb (length items) 2 then items else shuffle items

  -- `shuffleItems(items[1:], rng)`
  unfoldable pub shuffle_tail : List (StreamItem S) → List (StreamItem S)
  unfolding shuffle_items
  shuffle_tail items = take 1 items ++ shuffle_items (drop 1 items)

  -- `none` is the error on a channel without items.
  unfoldable pub build_queue : List (StreamItem S) → PlayMode → Option (ActiveQueue S)
  unfolding shuffle_items shuffle_tail
  build_queue [] mode = none
  build_queue (i ∷ is) mode =
      let items : List (StreamItem S) = i ∷ is in
      let queue : ActiveQueue S = (record {
        items = items;
        index = 0;
        loop_mode = loop_sequential;
        base_items = items;
      }) in
      let shuffled : ActiveQueue S = record queue {
        items = shuffle_items items;
        loop_mode = loop_shuffle;
      } in
      let after_first : ActiveQueue S = record queue {
        items = shuffle_tail items;
        loop_mode = loop_first_then_shuffle;
      } in
      if (length items == 1) && i.direct
      then some (record queue { loop_mode = loop_none })
      else some (elim mode [
        | unset ↦ shuffled
        | play_sequential ↦ queue
        | play_shuffle ↦ shuffled
        | play_first_then_shuffle ↦ if length items == 1 then queue else after_first
        | other_mode ↦ queue
      ])

  -- The queue, and whether it could advance.
  unfoldable pub advance_next : ActiveQueue S → ActiveQueue S × Bool
  unfolding shuffle_items shuffle_tail
  advance_next q =
      let len = length q.items in
      let next = record q { index = q.index + 1 } in
      if len == 0 then (q, false) else (elim q.loop_mode [
        | loop_none ↦ if leb (len - 1) q.index then (q, false) else (next, true)
        | loop_shuffle ↦
            if ltb q.index (len - 1)
            then (next, true)
            else (record q { items = shuffle_items q.base_items; index = 0 }, true)
        | loop_first_then_shuffle ↦
            if len == 1
            then (record q { index = 0 }, true)
            else if ltb q.index (len - 1)
            then (next, true)
            else (record q { items = shuffle_tail q.base_items; index = 1 }, true)
        | loop_sequential ↦ (record q { index = (q.index + 1) % len }, true)
      ])

  unfoldable pub reset_for_replay : ActiveQueue S → ActiveQueue S
  unfolding shuffle_items shuffle_tail
  reset_for_replay q =
      let plain = record q { index = 0 } in
      if length q.items == 0 then q else (elim q.loop_mode [
        | loop_first_then_shuffle ↦
            if ltb 1 (length q.base_items)
            then record q { items = shuffle_tail q.base_items; index = 0 }
            else plain
        | loop_shuffle ↦
            if ltb 0 (length q.base_items)
            then record q { items = shuffle_items q.base_items; index = 0 }
            else plain
        | loop_none ↦ plain
        | loop_sequential ↦ plain
      ])

module _ {S : Type 0} where
  unfoldable pub current_item : ActiveQueue S → Option (StreamItem S)
  current_item q = get_elem? q.items q.index

  unfoldable pub can_advance_next : ActiveQueue S → Bool
  can_advance_next q =
      let len = length q.items in
      if len == 0 then false else (elim q.loop_mode [
        | loop_none ↦ ltb q.index (len - 1)
        | loop_sequential ↦ true
        | loop_shuffle ↦ true
        | loop_first_then_shuffle ↦ true
      ])

  unfoldable pub advance_previous : ActiveQueue S → ActiveQueue S × Bool
  advance_previous q =
      let len = length q.items in
      let back = record q { index = q.index - 1 } in
      let wrap = record q { index = (q.index + len - 1) % len } in
      if len == 0 then (q, false) else (elim q.loop_mode [
        | loop_none ↦ if q.index == 0 then (q, false) else (back, true)
        | loop_first_then_shuffle ↦
            if ltb 1 len
            then (if leb q.index 1 then (record q { index = len - 1 }, true) else (back, true))
            else (wrap, true)
        | loop_sequential ↦ (wrap, true)
        | loop_shuffle ↦ (wrap, true)
      ])

  unfoldable pub can_advance_previous : ActiveQueue S → Bool
  can_advance_previous q = if length q.items == 0 then false else (elim q.loop_mode [
    | loop_none ↦ ltb 0 q.index
    | loop_sequential ↦ true
    | loop_shuffle ↦ true
    | loop_first_then_shuffle ↦ true
  ])

-- The search of `moveItemToFront`, given the comparison of an item with the id: the first match.
find_from : {A : Type 0} → (A → Bool) → List A → ℕ → Option ℕ
find_from matches [] i = none
find_from matches (x ∷ xs) i =
    let rest = find_from matches xs (i + 1) in if matches x then some i else rest

-- `copy(q.Items[1:idx+1], q.Items[:idx]); q.Items[0] = item`
unfoldable pub to_front : {A : Type 0} → List A → ℕ → List A
to_front items idx = elim (get_elem? items idx) [
  | none ↦ items
  | some item ↦ (item ∷ take idx items) ++ drop (idx + 1) items
]

module _ {S : Type 0} (same : S → S → Bool) (empty : S) where
  unfoldable pub stream_item_matches : S → StreamItem S → Bool
  stream_item_matches id item = same item.id id || same item.source_id id

  unfoldable pub item_identity : StreamItem S → S
  item_identity item = if not (same item.id empty) then item.id else item.source_id

  unfoldable pub move_item_to_front : ActiveQueue S → S → ActiveQueue S × Bool
  unfolding stream_item_matches find_from to_front
  move_item_to_front q item_id =
      if same item_id empty
      then (q, false)
      else (elim (find_from (stream_item_matches item_id) q.items 0) [
        | none ↦ (q, false)
        | some zero ↦ (q, true)
        | some (suc k) ↦
            let items = to_front q.items (suc k) in
            (record q { items = items; base_items = items; index = 0 }, true)
      ])
