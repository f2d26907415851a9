-- ===== src/Streams/Tests.antt =====
-- internal/adapters/streams/queue.go: the theorems at a queue of two items.
use mi_ster_groovy_relay.Prelude.{ℕ, ◌≡◌, refl, false, List, [], ◌∷◌, arith}
use mi_ster_groovy_relay.Streams.{
  StreamItem, ActiveQueue, LoopMode, loop_sequential, loop_shuffle, advance_next, advance_previous,
}
use mi_ster_groovy_relay.Streams.Position
use mi_ster_groovy_relay.Streams.Position.{
  advance_next-IsValid, advance_previous-IsValid, advance_previous-advance_next,
}

abbrev item : ℕ → StreamItem ℕ
item n = record { id = n; source_id = n; url = n; direct = false }

abbrev two_items : LoopMode → ActiveQueue ℕ
two_items mode = record {
  items = item 1 ∷ item 2 ∷ [];
  index = 1;
  loop_mode = mode;
  base_items = item 1 ∷ item 2 ∷ [];
}

two_items-IsValid : (mode : LoopMode) → Position.IsValid (two_items mode)
two_items-IsValid mode = record { inside = omega arith; base = refl }

-- A shuffle that keeps the order.
abbrev keep_order : List (StreamItem ℕ) → List (StreamItem ℕ)
keep_order items = items

advance_next-IsValid_example : Position.IsValid (advance_next keep_order (two_items loop_shuffle)).0
advance_next-IsValid_example =
    advance_next-IsValid keep_order (λ xs. refl) (two_items loop_shuffle)
      (two_items-IsValid loop_shuffle)

advance_previous-advance_next_example :
    (advance_previous (advance_next keep_order (two_items loop_sequential)).0).0
    ≡ two_items loop_sequential
advance_previous-advance_next_example =
    advance_previous-advance_next keep_order (two_items loop_sequential)
      (two_items-IsValid loop_sequential) refl
