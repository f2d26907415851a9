-- ===== src/Playback/Registry.antt =====
-- internal/adapters/registry.go: the adapters by name. An adapter is of the argument type `A`, with
-- its `Name()`; the mutex makes each method one step. The map holds its pairs in any order.
pub mod Listing
use mi_ster_groovy_relay.Prelude.{
  Bool, true, false, Option, none, some, List, [], ◌∷◌, ◌++◌, if◌then◌else◌,
}
use Prim.Native.String.{String}
use text.Mathlib.Text.{◌==◌ as str_eq}

pub record Registry (A : Type 0) : Type 0 where
  pub order : List String
  pub adapters : List (String × A)

abbrev pub new_registry : {A : Type 0} → Registry A
new_registry = record { order = []; adapters = [] }

module _ {A : Type 0} where
  unfoldable pub lookup : String → List (String × A) → Option A
  lookup name [] = none
  lookup name ((n, a) ∷ rest) = if str_eq n name then some a else lookup name rest

  unfoldable pub get : Registry A → String → Option A
  unfolding lookup
  get r name = lookup name r.adapters

  -- `r.adapters[name]` for each of the names: a missing one is nil.
  pub look_all : List (String × A) → List String → List (Option A)
  unfolding lookup
  look_all adapters [] = []
  look_all adapters (name ∷ names) = lookup name adapters ∷ look_all adapters names

  unfoldable pub list : Registry A → List (Option A)
  unfolding look_all
  list r = look_all r.adapters r.order

  module _ (name_of : A → String) where
    -- The registry afterwards, and whether there is no error.
    unfoldable pub register : Registry A → A → Registry A × Bool
    unfolding lookup
    register r a =
        let name = name_of a in
        elim (lookup name r.adapters) [
          | some old ↦ (r, false)
          | none ↦
              (record { order = r.order ++ (name ∷ []); adapters = (name, a) ∷ r.adapters }, true)
        ]
